-- ===== src/Runner/Workflow/Runs.antt =====
-- The executor of internal/runner/executor.go, and the run that `Execute` returns.
use pgcov.Base.{ℕ, Bool, true, false, Option, none, some, List, [], Bytes, if◌then◌else◌}
use pgcov.Decimal.{is_positive}
use pgcov.Instrument.Files.{SourceFile, InstrumentedSql}
use pgcov.Runner.{TestRun}
use pgcov.Runner.Workflow.{Server, Session, WorkflowError, execute}

-- The pool of the executor belongs to the server. The durations are in nanoseconds.
pub record Executor : Type 0 where
  pub timeout : ℕ
  pub signal_timeout : ℕ
  pub verbose : Bool
  pub coverage_channel : Bytes
  pub setup_sql : List (Bytes × Bytes)
  pub explicit_sources : Bool

unfoldable pub new_executor : ℕ → ℕ → Bool → Bytes → Executor
new_executor timeout signal_timeout verbose coverage_channel = record {
  timeout = timeout;
  signal_timeout = if is_positive signal_timeout then signal_timeout else 100000000;
  verbose = verbose;
  coverage_channel = coverage_channel;
  setup_sql = [];
  explicit_sources = false;
}

abbrev pub set_setup_scripts : List (Bytes × Bytes) → Executor → Executor
set_setup_scripts scripts e = record e { setup_sql = scripts }

abbrev pub use_explicit_sources : Executor → Executor
use_explicit_sources e = record e { explicit_sources = true }

module _ {W : Type 0} (server : Server W) (show : WorkflowError → Bytes) where
  abbrev pub error_text : Option WorkflowError → Option Bytes
  error_text none = none
  error_text (some e) = some (show e)

  -- The fields of the run at the end of `Execute`.
  abbrev pub run_at_end : SourceFile → ℕ → Option WorkflowError × Session W → TestRun
  run_at_end test duration (r, s) = record {
    test = some test;
    database = s.name;
    duration = duration;
    status = s.current;
    error = error_text r;
    coverage_sigs = s.sigs;
  }

  -- `Execute` of an executor on a test, which takes this long.
  unfoldable pub execute_for : Executor → SourceFile → List InstrumentedSql → ℕ → W → TestRun
  unfolding execute
  execute_for e test sources duration w =
      run_at_end test duration (execute server e.explicit_sources e.setup_sql test sources w)
