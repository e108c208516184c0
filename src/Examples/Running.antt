-- ===== src/Examples/Running.antt =====
-- The runner, the listener, the configuration and discovery at concrete inputs.
use pgcov.Base.{
  ltb, ℕ, true, false, none, some, List, [], ◌∷◌, Bytes, codes, ◌≡◌, ◌↔◌, refl, All, ok,
}
use pgcov.Instrument.Files.{SourceFile, InstrumentedSql}
use pgcov.Runner.{TestStatus, TestRun, summarize_runs, run_exit_code}
use pgcov.Runner.Exit.{IsGood, Meets, run_exit_code_lem}
use pgcov.Runner.Workflow.{Resource, Server, execute, sources_of}
use pgcov.Runner.Workflow.Cleanup.{opens, closes, execute-closes}
use pgcov.Runner.Workflow.Order.{execute_passes, Passed, Keeps}
use pgcov.Listener.{Listener, Event, collect_signals}
use pgcov.Listener.Arrivals.{Complete, collect_signals-Complete}
use pgcov.Listener.Connection.{LoopAction, at_start, loop_steps}
use pgcov.Listener.Connection.Accounted.{Accounted, heard, loop_steps-Accounted}
use pgcov.Config.{Config, FloatTests}
use pgcov.Discovery.{DiscoveredFile, FileType, Files, Stat, Visit, discover_co_located_sources}
use pgcov.Discovery.Sources.{Good, discover_co_located_sources-Good}

abbrev run_of : TestStatus → ℕ → TestRun
run_of status duration = record {
  test = none;
  database = codes "db";
  duration = duration;
  status = status;
  error = none;
  coverage_sigs = [];
}

abbrev three_runs : List TestRun
three_runs =
    run_of TestStatus.test_passed 3
    ∷ run_of TestStatus.test_timeout 4
    ∷ run_of TestStatus.test_failed 5
    ∷ []

run_exit_code_lem_example :
    (run_exit_code (summarize_runs three_runs) true true false ≡ 0)
    ↔ (All (λ r. IsGood r.status) three_runs × Meets true true false)
run_exit_code_lem_example = run_exit_code_lem three_runs true true false

-- A server on which everything works; its world counts the closed resources.
abbrev good_server : Server ℕ
good_server = record {
  open_resource = λ r w. (ok (codes "db"), w);
  close_resource = λ r w. w;
  exec = λ text w. (none, w);
  read_file = λ path w. (ok (codes "SELECT 1"), w);
  collect_signals = λ w. ((codes "f:15:1" ∷ [], none), w);
  is_cancelled = λ w. false;
  is_timed_out = λ w. false;
  dir = λ path. codes "/r";
}

-- A server that refuses every statement.
abbrev bad_server : Server ℕ
bad_server = record good_server { exec = λ text w. (some (codes "syntax error"), w) }

abbrev small_test : SourceFile
small_test = record { path = codes "/r/a_test.sql"; relative_path = codes "a_test.sql" }

abbrev small_source : InstrumentedSql
small_source = record {
  original = record {
    file = some (record { path = codes "/r/a.sql"; relative_path = codes "a.sql" });
    statements = [];
  };
  instrumented_text = codes "SELECT 2";
  locations = [];
}

execute-closes_example :
    opens Resource.temp_database
      (execute bad_server false [] small_test (small_source ∷ []) 0).1.log
    ≡ closes Resource.temp_database
        (execute bad_server false [] small_test (small_source ∷ []) 0).1.log
execute-closes_example =
    execute-closes bad_server false [] small_test (small_source ∷ []) 0 Resource.temp_database

small_test_passes :
    (execute good_server false [] small_test (small_source ∷ []) 0).1.current
    ≡ TestStatus.test_passed
unfolding execute
small_test_passes = refl

execute_passes_example :
    Keeps good_server
      (Passed good_server []
        (codes "/r/a_test.sql")
        (sources_of good_server false (small_source ∷ []) (codes "/r")))
      (record { world = 0; log = []; name = []; current = TestStatus.test_pending; sigs = [] })
      (execute good_server false [] small_test (small_source ∷ []) 0).1
execute_passes_example =
    execute_passes good_server false [] small_test (small_source ∷ []) 0 small_test_passes

abbrev small_listener : Listener
small_listener = record {
  channel = codes "c";
  capacity = 1;
  buffer = [];
  is_closed = false;
  dropped_signals = 0;
}

abbrev small_events : List Event
small_events =
    Event.notified (record { channel = codes "c"; payload = codes "f:1:1" })
    ∷ Event.signal_ready
    ∷ Event.notified (record { channel = codes "c"; payload = codes "f:3:1" })
    ∷ Event.timer_fired
    ∷ []

collect_signals-Complete_example :
    Complete [] small_listener small_events (collect_signals [] small_listener small_events)
collect_signals-Complete_example = collect_signals-Complete [] small_listener small_events

abbrev float_tests : FloatTests ℕ
float_tests = record { is_below_0 = λ n. false; is_above_100 = λ n. ltb 100 n }

abbrev small_config : Config ℕ
small_config = record {
  connection_string = codes "host=h";
  search_path = codes ".";
  timeout = 30;
  signal_timeout = 1;
  parallelism = 4;
  setup_files = [];
  source_files = [];
  coverage_file = codes "c.json";
  verbose = false;
  coverage_channel = [];
  fail_under = 80;
}

-- A directory with one source and one test.
abbrev small_files : Files
small_files = record {
  abs = λ p. ok p;
  stat = λ p. Stat.stat_dir;
  walk = λ p.
      (codes "a.sql", Visit.visit_file 1)
      ∷ (codes "a_test.sql", Visit.visit_file 2)
      ∷ (codes "a.sql", Visit.visit_file 1)
      ∷ [];
  rel = λ r p. ok p;
  to_slash = λ p. p;
  base = λ p. p;
  dir = λ p. codes ".";
}

abbrev file_of : Bytes → FileType → ℕ → DiscoveredFile
file_of path ty time = record { path = path; relative_path = path; ty = ty; mod_time = time }

small_files_found :
    discover_co_located_sources small_files
      (codes ".")
      (file_of (codes "a_test.sql") FileType.file_type_test 2 ∷ [])
    ≡ ok (file_of (codes "a.sql") FileType.file_type_source 1 ∷ [])
unfolding discover_co_located_sources
small_files_found = refl

discover_co_located_sources-Good_example :
    Good small_files (file_of (codes "a.sql") FileType.file_type_source 1 ∷ [])
discover_co_located_sources-Good_example =
    discover_co_located_sources-Good small_files (codes ".")
      (file_of (codes "a_test.sql") FileType.file_type_test 2 ∷ [])
      (file_of (codes "a.sql") FileType.file_type_source 1 ∷ []) small_files_found

-- A signal is taken and one error passes between two notifications; then the loop returns.
abbrev loop_actions : List LoopAction
loop_actions =
    LoopAction.arrived (record { channel = codes "c"; payload = codes "f:1:1" })
    ∷ LoopAction.take_signal
    ∷ LoopAction.wait_failed (codes "lost") false false
    ∷ LoopAction.arrived (record { channel = codes "c"; payload = codes "f:3:1" })
    ∷ LoopAction.wait_failed (codes "canceled") true false
    ∷ []

loop_steps-Accounted_example :
    Accounted
      (codes "c")
      (heard (codes "c") false loop_actions)
      (loop_steps loop_actions (at_start (codes "c")))
loop_steps-Accounted_example = loop_steps-Accounted (codes "c") loop_actions
