-- ===== src/Runner.antt =====
-- The test runner of internal/runner: the states of a run, the summary of the runs and its exit
-- code (types.go, executor.go).
pub mod Workflow
pub mod Pool
pub mod Summary
pub mod Exit
use pgcov.Base.{
  ℕ, zero, suc, ◌+◌, Bool, true, false, ◌&&◌, Option, none, some, List, [], ◌∷◌, ◌++◌, ◌==◌, ltb,
  if◌then◌else◌, Bytes, codes, bytes_eq, length,
}
use pgcov.Instrument.Files.{SourceFile}

pub data TestStatus : Type 0 where
  test_pending test_running test_passed test_failed test_timeout : TestStatus

-- A run: its test, its database, its times, its error and the identifiers of its signals. `duration`
-- is what `Duration` returns, from the clock.
pub record TestRun : Type 0 where
  pub test : Option SourceFile
  pub database : Bytes
  pub duration : ℕ
  pub status : TestStatus
  pub error : Option Bytes
  pub coverage_sigs : List Bytes

pub record TestSummary : Type 0 where
  pub total_tests : ℕ
  pub passed_tests : ℕ
  pub failed_tests : ℕ
  pub timed_out_tests : ℕ
  pub total_duration : ℕ

abbrev pub count_status : TestStatus → TestSummary → TestSummary
count_status TestStatus.test_passed s = record s { passed_tests = s.passed_tests + 1 }
count_status TestStatus.test_failed s = record s { failed_tests = s.failed_tests + 1 }
count_status TestStatus.test_timeout s = record s { timed_out_tests = s.timed_out_tests + 1 }
count_status _ s = s

-- The loop of `SummarizeRuns`.
unfoldable pub summarize_from : TestSummary → List TestRun → TestSummary
summarize_from s [] = s
summarize_from s (run ∷ runs) =
    summarize_from
      (count_status run.status (record s { total_duration = s.total_duration + run.duration })) runs

unfoldable pub summarize_runs : List TestRun → TestSummary
unfolding summarize_from
summarize_runs runs =
    summarize_from
      (record {
        total_tests = length runs;
        passed_tests = 0;
        failed_tests = 0;
        timed_out_tests = 0;
        total_duration = 0;
      })
      runs

abbrev pub all_passed : TestSummary → Bool
all_passed s = s.failed_tests == 0 && s.timed_out_tests == 0

abbrev pub exit_code : TestSummary → ℕ
exit_code s = if all_passed s then 0 else 1

relative_path_of : Option SourceFile → Bytes
relative_path_of none = []
relative_path_of (some f) = f.relative_path

abbrev failure_line : Bytes → TestRun → Bytes → Bytes
failure_line prefix run e =
    prefix ++ (codes " " ++ (relative_path_of run.test ++ (codes ": " ++ e)))

abbrev failure_lines : TestStatus → TestRun → Option Bytes → List Bytes
failure_lines TestStatus.test_failed run (some e) = failure_line (codes "FAILED") run e ∷ []
failure_lines TestStatus.test_timeout run (some e) = failure_line (codes "TIMEOUT") run e ∷ []
failure_lines _ run _ = []

-- `FormatFailedTests`; a nil run is `none`.
unfoldable pub format_failed_tests : List (Option TestRun) → List Bytes
unfolding relative_path_of
format_failed_tests [] = []
format_failed_tests (none ∷ runs) = format_failed_tests runs
format_failed_tests (some run ∷ runs) =
    failure_lines run.status run run.error ++ format_failed_tests runs

-- The exit code of `Run` in internal/cli/run.go. `threshold` is `FailUnder > 0`; `has_executable` is
-- whether there is an executable position, and `below` is `coveragePercent < FailUnder`.
unfoldable pub run_exit_code : TestSummary → Bool → Bool → Bool → ℕ
run_exit_code summary threshold has_executable below =
    if exit_code summary == 0 && threshold
    then (if has_executable then (if below then 1 else 0) else 1)
    else exit_code summary
