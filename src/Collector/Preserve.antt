-- ===== src/Collector/Preserve.antt =====
-- What every write to the coverage data keeps, seeding and collecting keep.
use pgcov.Base.{ℕ, Option, none, some, List, [], ◌∷◌, Bytes, inl, inr, Bool-cases, Result, ok, err}
use pgcov.Signal.{SignalError, parse_signal_id}
use pgcov.Coverage.{Coverage, add_position, add_implicit_position}
use pgcov.Point.{CoveragePoint}
use pgcov.Collector.{
  or_fail, or_stop, bump, count_parsed, add_signal_unsafe, collect_from_run, collect_from_runs,
  seed, seed_implicit, seed_executable, seed_all, initialize_from_instrumented,
}

-- A write to either map keeps `Q`.
pub record ClosedUnderWrites (Q : Coverage → Type 0) : Type 0 where
  pub executable : (c : Coverage) (f : Bytes) (s l n : ℕ) → Q c → Q (add_position c f s l n)
  pub implicit : (c : Coverage) (f : Bytes) (s l n : ℕ) → Q c → Q (add_implicit_position c f s l n)

module _ (Q : Coverage → Type 0) (closed : ClosedUnderWrites Q) where
  bump-keeps : (c : Coverage) (f : Bytes) (s l : ℕ) (o : Option ℕ) → Q c → Q (bump c f s l o)
  unfolding bump
  bump-keeps c f s l none w = closed.executable c f s l _ w
  bump-keeps c f s l (some n) w = closed.implicit c f s l _ w

  count_parsed-keeps :
      (c : Coverage) (r : Result SignalError (Bytes × ℕ × ℕ)) → Q c → Q (count_parsed c r).0
  unfolding count_parsed
  count_parsed-keeps c (ok (f, s, l)) w = bump-keeps c f s l _ w
  count_parsed-keeps c (err e) w = w

  or_fail-keeps :
      (signal : Bytes) (x : Coverage × Option SignalError)
      (next : Coverage → Coverage × Option (Bytes × SignalError))
      → Q x.0
      → ((d : Coverage) → Q d → Q (next d).0)
      → Q (or_fail signal x next).0
  or_fail-keeps signal (c, none) next w k = k c w
  or_fail-keeps signal (c, some e) next w k = w

  or_stop-keeps :
      (x : Coverage × Option (Bytes × SignalError))
      (next : Coverage → Coverage × Option (Bytes × SignalError))
      → Q x.0
      → ((d : Coverage) → Q d → Q (next d).0)
      → Q (or_stop x next).0
  or_stop-keeps (c, none) next w k = k c w
  or_stop-keeps (c, some e) next w k = w

  pub add_signal-keeps : (c : Coverage) (s : Bytes) → Q c → Q (add_signal_unsafe c s).0
  unfolding add_signal_unsafe
  add_signal-keeps c s w = count_parsed-keeps c (parse_signal_id s) w

  pub run-keeps : (signals : List Bytes) (c : Coverage) → Q c → Q (collect_from_run c signals).0
  unfolding collect_from_run
  run-keeps [] c w = w
  run-keeps (s ∷ signals) c w =
      or_fail-keeps s (add_signal_unsafe c s) (λ d. collect_from_run d signals)
        (add_signal-keeps c s w) (run-keeps signals)

  pub runs-keeps : (runs : List (List Bytes)) (c : Coverage) → Q c → Q (collect_from_runs c runs).0
  unfolding collect_from_runs
  runs-keeps [] c w = w
  runs-keeps (r ∷ runs) c w =
      or_stop-keeps (collect_from_run c r) (λ d. collect_from_runs d runs) (run-keeps r c w)
        (runs-keeps runs)

  seed_implicit-keeps :
      (c : Coverage) (p : CoveragePoint) (o : Option ℕ) → Q c → Q (seed_implicit c p o)
  unfolding seed_implicit
  seed_implicit-keeps c p none w = closed.implicit c p.file p.start_pos p.len 0 w
  seed_implicit-keeps c p (some n) w = w

  seed_executable-keeps :
      (c : Coverage) (p : CoveragePoint) (o : Option ℕ) → Q c → Q (seed_executable c p o)
  unfolding seed_executable
  seed_executable-keeps c p none w = closed.executable c p.file p.start_pos p.len 0 w
  seed_executable-keeps c p (some n) w = w

  seed-keeps : (c : Coverage) (p : CoveragePoint) → Q c → Q (seed c p)
  seed-keeps c p w = elim (Bool-cases p.implicit_coverage) [
    | inl e ↦ unfold seed in rw e (seed_implicit-keeps c p _ w)
    | inr e ↦ unfold seed in rw e (seed_executable-keeps c p _ w)
  ]

  seed_all-keeps : (ps : List CoveragePoint) (c : Coverage) → Q c → Q (seed_all c ps)
  unfolding seed_all
  seed_all-keeps [] c w = w
  seed_all-keeps (p ∷ ps) c w = seed_all-keeps ps (seed c p) (seed-keeps c p w)

  pub initialize-keeps :
      (files : List (List CoveragePoint)) (c : Coverage)
      → Q c
      → Q (initialize_from_instrumented c files)
  unfolding initialize_from_instrumented
  initialize-keeps [] c w = w
  initialize-keeps (ps ∷ files) c w = initialize-keeps files (seed_all c ps) (seed_all-keeps ps c w)
