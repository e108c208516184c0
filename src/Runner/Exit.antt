-- ===== src/Runner/Exit.antt =====
-- When the process exits with 0.
use pgcov.Base.{
  ℕ, Bool, true, false, ◌&&◌, ◌==◌, List, [], ◌∷◌, if◌then◌else◌, ◌≡◌, refl, sym, ◌∙◌, arith, All,
  ◌↔◌,
}
use pgcov.Runner.{TestStatus, TestRun, summarize_runs, run_exit_code}
use pgcov.Runner.Summary.{is_failed, is_timeout, count_of, summarize_runs_lem}

-- The run neither failed nor timed out.
pub data IsGood : TestStatus → Type 0 where
  good_pending : IsGood TestStatus.test_pending
  good_running : IsGood TestStatus.test_running
  good_passed : IsGood TestStatus.test_passed

abbrev one_if : Bool → ℕ
one_if b = if b then 1 else 0

IsGood-of : (st : TestStatus) → one_if (is_failed st) ≡ 0 → one_if (is_timeout st) ≡ 0 → IsGood st
IsGood-of TestStatus.test_pending f t = IsGood.good_pending
IsGood-of TestStatus.test_running f t = IsGood.good_running
IsGood-of TestStatus.test_passed f t = IsGood.good_passed
IsGood-of TestStatus.test_failed f t = absurd (omega (arith, f))
IsGood-of TestStatus.test_timeout f t = absurd (omega (arith, t))

good_zero : (st : TestStatus) → IsGood st → one_if (is_failed st) ≡ 0 × one_if (is_timeout st) ≡ 0
good_zero TestStatus.test_pending g = (refl, refl)
good_zero TestStatus.test_running g = (refl, refl)
good_zero TestStatus.test_passed g = (refl, refl)
good_zero TestStatus.test_failed g = elim g [ ]
good_zero TestStatus.test_timeout g = elim g [ ]

All-IsGood :
    (runs : List TestRun)
    → count_of is_failed runs ≡ 0
    → count_of is_timeout runs ≡ 0
    → All (λ r. IsGood r.status) runs
All-IsGood [] f t = tt
All-IsGood (run ∷ runs) f t = (
  IsGood-of run.status (omega (arith, f)) (omega (arith, t)),
  All-IsGood runs (omega (arith, f)) (omega (arith, t)),
)

none_bad :
    (runs : List TestRun)
    → All (λ r. IsGood r.status) runs
    → count_of is_failed runs ≡ 0 × count_of is_timeout runs ≡ 0
none_bad [] g = (refl, refl)
none_bad (run ∷ runs) (g, gs) =
    let (a, b) = good_zero run.status g in
    let (c, d) = none_bad runs gs in (omega (arith, a, c), omega (arith, b, d))

-- The threshold is off, or there is something to measure and the percentage is not below it.
abbrev pub Meets : Bool → Bool → Bool → Type 0
Meets threshold has_executable below = threshold ≡ true → (has_executable ≡ true × below ≡ false)

abbrev code_of : ℕ → ℕ → Bool → Bool → Bool → ℕ
code_of f t threshold has_executable below =
    if (if f == 0 && t == 0 then 0 else 1) == 0 && threshold
    then (if has_executable then (if below then 1 else 0) else 1)
    else if f == 0 && t == 0
    then 0
    else 1

code_of-zero :
    (f t : ℕ) (threshold has_executable below : Bool)
    → code_of f t threshold has_executable below ≡ 0
    → f ≡ 0 × t ≡ 0 × Meets threshold has_executable below
code_of-zero f t true true true h = absurd (ground (arith, h))
code_of-zero f t true true false h = (ground (arith, h), ground (arith, h), λ _. (refl, refl))
code_of-zero f t true false below h = absurd (ground (arith, h))
code_of-zero f t false has_executable below h = (ground (arith, h), ground (arith, h), λ k. cc)

code_of_met :
    (f t : ℕ) (threshold has_executable below : Bool)
    → f ≡ 0
    → t ≡ 0
    → Meets threshold has_executable below
    → code_of f t threshold has_executable below ≡ 0
code_of_met f t true has_executable below p q m = let (a, b) = m refl in ground (arith, a, b)
code_of_met f t false has_executable below p q m = ground arith

-- The exit code of the command is 0 just when no run failed or timed out and, where a threshold is
-- set, something executable was instrumented and the percentage is not below the threshold.
pub run_exit_code_lem :
    (runs : List TestRun) (threshold has_executable below : Bool)
    → (run_exit_code (summarize_runs runs) threshold has_executable below ≡ 0)
      ↔ (All (λ r. IsGood r.status) runs × Meets threshold has_executable below)
unfolding run_exit_code
run_exit_code_lem runs threshold has_executable below =
    let (_, _, f, t, _) = summarize_runs_lem runs in
    let s = summarize_runs runs in
    (
      λ h.
          let (a, b, m) =
            code_of-zero s.failed_tests s.timed_out_tests threshold has_executable below h in
          (All-IsGood runs (sym f ∙ a) (sym t ∙ b), m),
      λ (g, m).
          let (a, b) = none_bad runs g in
          code_of_met s.failed_tests s.timed_out_tests threshold has_executable below (f ∙ a)
            (t ∙ b) m,
    )
