-- ===== src/Runner/Summary.antt =====
-- What the summary counts, and what the exit code says of the runs.
use pgcov.Base.{
  ℕ, ◌+◌, Bool, true, false, List, [], ◌∷◌, if◌then◌else◌, length, ◌≡◌, refl, ◌∙◌, arith,
}
use pgcov.Runner.{TestStatus, TestRun, TestSummary, count_status, summarize_from, summarize_runs}

abbrev pub is_passed : TestStatus → Bool
is_passed TestStatus.test_passed = true
is_passed _ = false

abbrev pub is_failed : TestStatus → Bool
is_failed TestStatus.test_failed = true
is_failed _ = false

abbrev pub is_timeout : TestStatus → Bool
is_timeout TestStatus.test_timeout = true
is_timeout _ = false

-- How many runs have a status that passes the test.
abbrev pub count_of : (TestStatus → Bool) → List TestRun → ℕ
count_of p [] = 0
count_of p (run ∷ runs) = (if p run.status then 1 else 0) + count_of p runs

abbrev pub sum_durations : List TestRun → ℕ
sum_durations [] = 0
sum_durations (run ∷ runs) = run.duration + sum_durations runs

pub record Summarizes (s : TestSummary) (t : TestSummary) (runs : List TestRun) : Type 0 where
  pub total : t.total_tests ≡ s.total_tests
  pub passed : t.passed_tests ≡ s.passed_tests + count_of is_passed runs
  pub failed : t.failed_tests ≡ s.failed_tests + count_of is_failed runs
  pub timed_out : t.timed_out_tests ≡ s.timed_out_tests + count_of is_timeout runs
  pub durations : t.total_duration ≡ s.total_duration + sum_durations runs

status_step :
    (st : TestStatus) (s : TestSummary)
    → (count_status st s).total_tests ≡ s.total_tests
      × (count_status st s).passed_tests ≡ s.passed_tests + (if is_passed st then 1 else 0)
      × (count_status st s).failed_tests ≡ s.failed_tests + (if is_failed st then 1 else 0)
      × (count_status st s).timed_out_tests ≡ s.timed_out_tests + (if is_timeout st then 1 else 0)
      × (count_status st s).total_duration ≡ s.total_duration
status_step TestStatus.test_pending s = (refl, omega arith, omega arith, omega arith, refl)
status_step TestStatus.test_running s = (refl, omega arith, omega arith, omega arith, refl)
status_step TestStatus.test_passed s = (refl, omega arith, omega arith, omega arith, refl)
status_step TestStatus.test_failed s = (refl, omega arith, omega arith, omega arith, refl)
status_step TestStatus.test_timeout s = (refl, omega arith, omega arith, omega arith, refl)

summarize_from-Summarizes :
    (s : TestSummary) (runs : List TestRun) → Summarizes s (summarize_from s runs) runs
unfolding summarize_from
summarize_from-Summarizes s [] = record {
  total = refl;
  passed = omega arith;
  failed = omega arith;
  timed_out = omega arith;
  durations = omega arith;
}
summarize_from-Summarizes s (run ∷ runs) =
    let s' = record s { total_duration = s.total_duration + run.duration } in
    let ih = summarize_from-Summarizes (count_status run.status s') runs in
    let (a, b, c, d, e) = status_step run.status s' in
    record {
      total = ih.total ∙ a;
      passed = omega (arith, ih.passed, b);
      failed = omega (arith, ih.failed, c);
      timed_out = omega (arith, ih.timed_out, d);
      durations = omega (arith, ih.durations, e);
    }

-- The summary counts the runs, those that passed, failed and timed out, and adds up the durations.
pub summarize_runs_lem :
    (runs : List TestRun)
    → (summarize_runs runs).total_tests ≡ length runs
      × (summarize_runs runs).passed_tests ≡ count_of is_passed runs
      × (summarize_runs runs).failed_tests ≡ count_of is_failed runs
      × (summarize_runs runs).timed_out_tests ≡ count_of is_timeout runs
      × (summarize_runs runs).total_duration ≡ sum_durations runs
unfolding summarize_runs
summarize_runs_lem runs =
    let r =
      summarize_from-Summarizes
        (record {
          total_tests = length runs;
          passed_tests = 0;
          failed_tests = 0;
          timed_out_tests = 0;
          total_duration = 0;
        })
        runs in
    (
      r.total,
      omega (arith, r.passed),
      omega (arith, r.failed),
      omega (arith, r.timed_out),
      omega (arith, r.durations),
    )
