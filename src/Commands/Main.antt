-- ===== src/Commands/Main.antt =====
-- The commands of cmd/pgcov/main.go, from the flags that are set to the exit code of the process, and
-- the defaults of internal/cli/config.go. The context is the background context, which is never done.
pub mod Codes
pub mod Executed
pub mod Others
use pgcov.Base.{
  ℕ, Bool, true, false, Option, none, some, List, [], ◌∷◌, if◌then◌else◌, Bytes, codes, bytes_eq,
  Result, ok, err, ◌≡◌,
}
use pgcov.Config.{Config, ConfigError, RunFlags, FloatTests, validate, override}
use pgcov.Instrument.Files.{SourceFile, InstrumentedSql}
use pgcov.Runner.{TestRun}
use pgcov.Database.{Session}
use pgcov.Commands.Run.{Env, RunError, Ending, Run}

-- `NewConfig`, with the durations in nanoseconds; `no_threshold` is `0.0`.
unfoldable pub new_config : {F : Type 0} → F → Config F
new_config no_threshold = record {
  connection_string = [];
  search_path = [];
  timeout = 30000000000;
  signal_timeout = 100000000;
  parallelism = 1;
  setup_files = [];
  source_files = [];
  coverage_file = codes ".pgcov/coverage.json";
  verbose = false;
  coverage_channel = [];
  fail_under = no_threshold;
}

-- The first argument, or the current directory.
unfoldable pub search_path_of : Bytes → Bytes
unfolding bytes_eq
search_path_of first = if bytes_eq first [] then codes "." else first

-- The configuration of the command: the defaults and the flags that are set.
abbrev pub config_of : {F : Type 0} → F → (Bytes → Bool) → RunFlags F → Config F
config_of no_threshold is_set flags = override (new_config no_threshold) is_set flags

module _ {F O P W : Type 0} (env : Env F O P W) (tests : FloatTests F) (no_threshold : F)
    (Outcome : Bool → List (Bytes × Bytes) → List InstrumentedSql → SourceFile → TestRun → Type 0)
    (is_set : Bytes → Bool) (flags : RunFlags F) (first : Bytes) where
  -- `runCommand`, with the exit code of the process; a panic exits with 2.
  pub data RunCommand (s : Session P W) : ℕ → Session P W → Type 0 where
    invalid :
        (e : ConfigError)
        → validate tests (config_of no_threshold is_set flags) ≡ some e
        → RunCommand s 2 s
    exited :
        (n : ℕ) (s' : Session P W)
        → validate tests (config_of no_threshold is_set flags) ≡ none
        → Run env
            (config_of no_threshold is_set flags)
            (search_path_of first)
            Outcome
            false
            s
            (Ending.exited n)
            s'
        → RunCommand s n s'
    failed :
        (e : RunError) (s' : Session P W)
        → validate tests (config_of no_threshold is_set flags) ≡ none
        → Run env
            (config_of no_threshold is_set flags)
            (search_path_of first)
            Outcome
            false
            s
            (Ending.failed e)
            s'
        → RunCommand s 1 s'
    panicked :
        (s' : Session P W)
        → validate tests (config_of no_threshold is_set flags) ≡ none
        → Run env
            (config_of no_threshold is_set flags)
            (search_path_of first)
            Outcome
            false
            s
            Ending.panicked
            s'
        → RunCommand s 2 s'
