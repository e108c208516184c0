-- ===== src/Runner/Pool/Complete.antt =====
-- What `ExecuteParallel` returns.
use pgcov.Base.{
  ℕ, suc, ◌<◌, Bool, false, Option, some, List, [], ◌∷◌, ◌≡◌, refl, ap, sym, ◌∙◌, arith, length,
  get_elem?, map, subst,
}
use pgcov.Runner.{TestRun}
use pgcov.Instrument.Files.{SourceFile}
use pgcov.Runner.Pool.{
  new_worker_pool, Phase, System, Step, Steps, launched, Batch, ExecuteParallel,
}
use pgcov.Runner.Pool.Places.{
  in_jobs, in_results, in_worker, in_runs, in_jobs-nil, in_results-nil, total-AllFinished,
  get_elem?-in_runs, get_elem?-lt,
}
use pgcov.Runner.Pool.Checked.{Ended, IsRun, IsChecked, IsChecked-Step, launched-IsChecked}
use pgcov.Runner.Pool.Counted.{IsCounted, IsCounted-Step, launched-IsCounted}
use pgcov.Runner.Pool.Shape.{IsShaped, IsShaped-Step, launched-IsShaped, AllFinished-of}

pub new_worker_pool_pos : (n : ℕ) (v : Bool) → 0 < (new_worker_pool n v).max_workers
unfolding new_worker_pool
new_worker_pool_pos n v = ground arith

module _ (Outcome : SourceFile → TestRun → Type 0) where
  pub record IsGood (n : ℕ) (tests : List SourceFile) (s : System) : Type 0 where
    pub checked : IsChecked Outcome tests s
    pub counted : IsCounted Outcome tests s
    pub shaped : IsShaped n s
    pub room : s.room ≡ length tests

  Step-room : {s t : System} → Step Outcome s t → t.room ≡ s.room
  Step-room (Step.send _ _ _ _ _) = refl
  Step-room _ = refl

  pub Step-IsGood :
      {n : ℕ} {tests : List SourceFile} {s t : System}
      → Step Outcome s t
      → IsGood n tests s
      → IsGood n tests t
  Step-IsGood {n} {tests} st h = record {
    checked = IsChecked-Step Outcome tests st h.checked;
    counted = IsCounted-Step Outcome tests st h.checked h.counted;
    shaped = IsShaped-Step n st h.shaped;
    room = Step-room st ∙ h.room;
  }

  pub launched-IsGood :
      (n : ℕ) (tests : List SourceFile) (c : Bool) → IsGood n tests (launched n tests c)
  launched-IsGood n tests c = record {
    checked = launched-IsChecked Outcome tests n c;
    counted = launched-IsCounted Outcome tests n c;
    shaped = launched-IsShaped n tests c;
    room = refl;
  }

  pub Steps-IsGood :
      {n : ℕ} {tests : List SourceFile} {s : System} {k : ℕ} {t : System}
      → Steps Outcome s k t
      → IsGood n tests s
      → IsGood n tests t
  Steps-IsGood Steps.here h = h
  Steps-IsGood (Steps.next r st) h = Step-IsGood st (Steps-IsGood r h)

  -- Where the caller has returned, every test has been recorded.
  returned_full :
      {n : ℕ} {tests : List SourceFile} {s : System}
      → 0 < n
      → IsGood n tests s
      → s.phase ≡ Phase.returned
      → (i : ℕ) → i < length tests
      → in_runs i s.runs ≡ 1
  returned_full {s = s} pos h p i lt =
      let (closed, no_results) = h.shaped.left p in
      let all = h.shaped.done closed in
      let (no_jobs, jobs_closed) = h.shaped.idle (omega (arith, all, h.shaped.crew, pos)) in
      omega (
        arith,
        h.counted i lt,
        ap (in_jobs i) (h.shaped.sent jobs_closed),
        ap (in_jobs i) no_jobs,
        ap (in_results i) no_results,
        in_jobs-nil i,
        in_results-nil i,
        total-AllFinished (in_worker i) refl (AllFinished-of s.workers all),
      )

  -- However the steps of a pool with at least one worker interleave, and whether or not the context is
  -- cancelled: where it has returned, there is a run at the index of each test and at no other, and it
  -- is one that `Execute` returned for the test at that index or, if the context is done, the failed
  -- run that marks this test as not started.
  pub pool_fills :
      (n k : ℕ) (tests : List SourceFile) (cancelled : Bool) (s : System)
      → 0 < n
      → Steps Outcome (launched n tests cancelled) k s
      → s.phase ≡ Phase.returned
      → (length s.runs ≡ length tests)
        × ((i : ℕ)
            → i < length tests
            → (run : TestRun) × get_elem? s.runs i ≡ some (some run)
              × IsRun Outcome tests s.cancelled i run)
  pool_fills n k tests cancelled s pos r p =
      let h = Steps-IsGood r (launched-IsGood n tests cancelled) in
      (
        h.checked.size,
        λ i lt.
            let (run, e) = get_elem?-in_runs i s.runs (returned_full pos h p i lt) in
            (run, e, h.checked.recorded i run e),
      )

  -- One run for each test, in their order, each of them returned by `Execute` for its test.
  abbrev pub RunEach : List SourceFile → List (Option TestRun) → Type 0
  RunEach [] runs = runs ≡ []
  RunEach (f ∷ fs) [] = ⊥
  RunEach (f ∷ fs) (r ∷ runs) = ((run : TestRun) × (r ≡ some run) × Outcome f run) × RunEach fs runs

  pub RunEach-of :
      (tests : List SourceFile) (runs : List (Option TestRun))
      → length runs ≡ length tests
      → ((i : ℕ) (f : SourceFile)
          → get_elem? tests i ≡ some f
          → (run : TestRun) × get_elem? runs i ≡ some (some run) × Outcome f run)
      → RunEach tests runs
  RunEach-of [] [] e h = refl
  RunEach-of [] (r ∷ runs) e h = absurd (omega (arith, e))
  RunEach-of (f ∷ fs) [] e h = omega (arith, e)
  RunEach-of (f ∷ fs) (r ∷ runs) e h =
      let (run, q, o) = h 0 f refl in
      ((run, (cc), o), RunEach-of fs runs (omega (arith, e)) (λ i g p. h (suc i) g p))

  pub Batch-RunEach :
      {tests : List SourceFile} {c : Bool} {runs : List TestRun}
      → Batch Outcome tests c runs
      → c ≡ false
      → RunEach tests (map some runs)
  Batch-RunEach (Batch.done c) e = refl
  Batch-RunEach (Batch.stop f run rest o q) e = absurd (cc)
  Batch-RunEach (Batch.more f run o b) e = ((run, refl, o), Batch-RunEach b e)

  pub no_tests_RunEach :
      (tests : List SourceFile) (runs : List (Option TestRun))
      → length tests ≡ 0
      → runs ≡ []
      → RunEach tests runs
  no_tests_RunEach [] runs e q = q
  no_tests_RunEach (f ∷ fs) runs e q = absurd (omega (arith, e))

  Ended-live :
      {f : SourceFile} {c : Bool} {run : TestRun}
      → Ended Outcome f c run
      → c ≡ false
      → Outcome f run
  Ended-live (Ended.ran run o) e = o
  Ended-live (Ended.skipped d r q) e = absurd (cc)

  -- Where the context is not cancelled, ExecuteParallel returns one run for each test, in the order of
  -- the tests and each returned by `Execute` for its test, for any number of workers, the bad ones
  -- below 1 included, and however the workers interleave.
  pub ExecuteParallel-RunEach :
      (max_workers : ℕ) (verbose : Bool) (tests : List SourceFile) (runs : List (Option TestRun))
      → ExecuteParallel Outcome (new_worker_pool max_workers verbose) tests false runs
      → RunEach tests runs
  ExecuteParallel-RunEach n v tests runs (ExecuteParallel.no_tests e q) =
      no_tests_RunEach tests runs e q
  ExecuteParallel-RunEach n v tests runs (ExecuteParallel.one_by_one batch a b d q) =
      subst (RunEach tests) (sym q) (Batch-RunEach d refl)
  ExecuteParallel-RunEach n v tests runs (ExecuteParallel.concurrent c k s a b r p live q) =
      let (size, all) = pool_fills _ k tests c s (new_worker_pool_pos n v) r p in
      subst (RunEach tests) (sym q) (
        RunEach-of tests s.runs size (λ i f e.
          let (run, found, end) = all i (get_elem?-lt tests i e) in
          let (g, e', d) = end in
          let same : g ≡ f = let x = sym e' ∙ e in cc in
          (run, found, subst (λ h. Outcome h run) same (Ended-live d live))))
