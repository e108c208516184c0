-- ===== src/Runner/Pool/Checked.antt =====
-- Every job in the pool is one of the tests, and every result is a run of the test at its index.
use pgcov.Base.{
  All_map, ℕ, suc, ◌+◌, ◌<◌, Bool, true, Option, none, some, List, [], ◌∷◌, ◌==◌, Bytes, ◌≡◌, refl,
  ap, sym, ◌∙◌, arith, length, set, get_elem?, All, Bool-cases, inl, inr, subst, subst₂, ==_iff,
}
use native.Mathlib.Nat.{add-zero}
use pgcov.Runner.{TestRun}
use pgcov.Instrument.Files.{SourceFile}
use pgcov.Runner.Pool.{
  TestJob, TestResult, Worker, System, Goes, jobs_from, cancelled_run, Step, launched,
}
use pgcov.Runner.Pool.Places.{
  length-set, length-replicate, get_elem?-set, Held, Held-before, Held-Goes, Held-map, All-snoc,
  get_elem?-lt, All-replicate, get_elem?-replicate,
}

module _ (Outcome : SourceFile → TestRun → Type 0) where
  -- The run of a test: what `Execute` returned, or the mark of a test that was not started because
  -- the context was done.
  pub data Ended (f : SourceFile) (cancelled : Bool) : TestRun → Type 0 where
    ran : (run : TestRun) → Outcome f run → Ended f cancelled run
    skipped :
        (duration : ℕ) (reason : Bytes)
        → cancelled ≡ true
        → Ended f cancelled (cancelled_run f duration reason)

  Ended-cancel : {f : SourceFile} {c : Bool} {run : TestRun} → Ended f c run → Ended f true run
  Ended-cancel (ran run o) = ran run o
  Ended-cancel (skipped d r e) = skipped d r refl

  module _ (tests : List SourceFile) where
    abbrev pub IsJob : TestJob → Type 0
    IsJob job = get_elem? tests job.index ≡ some job.test_file

    -- A run that stands at an index is one of the test there.
    abbrev pub IsRun : Bool → ℕ → TestRun → Type 0
    IsRun c i run = (f : SourceFile) × get_elem? tests i ≡ some f × Ended f c run

    abbrev pub IsResult : Bool → TestResult → Type 0
    IsResult c r = IsRun c r.index r.run

    abbrev pub AreRuns : Bool → List (Option TestRun) → Type 0
    AreRuns c runs = (i : ℕ) (run : TestRun) → get_elem? runs i ≡ some (some run) → IsRun c i run

    pub record Checked (c : Bool) (unsent jobs : List TestJob) (workers : List Worker)
        (results : List TestResult) (runs : List (Option TestRun)) : Type 0 where
      pub unsent_jobs : All IsJob unsent
      pub queued : All IsJob jobs
      pub held : All (Held IsJob (IsResult c)) workers
      pub delivered : All (IsResult c) results
      pub recorded : AreRuns c runs
      pub size : length runs ≡ length tests

    abbrev pub IsChecked : System → Type 0
    IsChecked s = Checked s.cancelled s.unsent s.jobs s.workers s.results s.runs

    AreRuns-set :
        (c : Bool) (r : TestResult) (runs : List (Option TestRun))
        → length runs ≡ length tests
        → IsResult c r
        → AreRuns c runs
        → AreRuns c (set runs r.index (some r.run))
    AreRuns-set c r runs size (f, e, d) h i run q =
        let lt : r.index < length runs = omega (arith, size, get_elem?-lt tests r.index e) in
        let read = get_elem?-set runs i r.index (some r.run) lt in
        elim (Bool-cases (r.index == i)) [
          | inl same ↦
              let now : some (some r.run) ≡ some (some run) = sym (rw same at read) ∙ q in
              subst₂ (λ j x. IsRun c j x) ((==_iff r.index i).0 same) (cc) (f, e, d)
          | inr other ↦ h i run (sym (rw other at read) ∙ q)
        ]

    -- One worker goes on with what it holds, or with what it has made of it.
    Held-step :
        (c : Bool) (unsent jobs : List TestJob) (workers ws : List Worker)
        (results : List TestResult) (runs : List (Option TestRun)) (w w' : Worker) (i : ℕ)
        → Checked c unsent jobs workers results runs
        → Goes w w' i workers ws
        → (Held IsJob (IsResult c) w → Held IsJob (IsResult c) w')
        → Checked c unsent jobs ws results runs
    Held-step c unsent jobs workers ws results runs w w' i h g f = record {
      unsent_jobs = h.unsent_jobs;
      queued = h.queued;
      held = Held-Goes IsJob (IsResult c) g (f (Held-before IsJob (IsResult c) g h.held)) h.held;
      delivered = h.delivered;
      recorded = h.recorded;
      size = h.size;
    }

    pub IsChecked-Step : {s t : System} → Step Outcome s t → IsChecked s → IsChecked t
    IsChecked-Step {s} (Step.send job rest p e room) h =
        let (j, js) = subst (All IsJob) e h.unsent_jobs in
        record {
          unsent_jobs = js;
          queued = All-snoc IsJob s.jobs job h.queued j;
          held = h.held;
          delivered = h.delivered;
          recorded = h.recorded;
          size = h.size;
        }
    IsChecked-Step (Step.close_jobs p e) h = h
    IsChecked-Step {s} (Step.receive job rest i ws e g) h =
        let (j, js) = subst (All IsJob) e h.queued in
        record {
          unsent_jobs = h.unsent_jobs;
          queued = js;
          held = Held-Goes IsJob (IsResult s.cancelled) g j h.held;
          delivered = h.delivered;
          recorded = h.recorded;
          size = h.size;
        }
    IsChecked-Step (Step.finish i ws e c g) h = Held-step _ _ _ _ _ _ _ _ _ _ h g (λ _. tt)
    IsChecked-Step (Step.start job i ws c g) h = Held-step _ _ _ _ _ _ _ _ _ _ h g (λ j. j)
    IsChecked-Step {s} (Step.skip job d r i ws c g) h =
        Held-step _ _ _ _ _ _ _ _ _ _ h g (λ j. (job.test_file, j, skipped d r c))
    IsChecked-Step (Step.execute job run i ws o g) h =
        Held-step _ _ _ _ _ _ _ _ _ _ h g (λ j. (job.test_file, j, ran run o))
    IsChecked-Step {s} (Step.deliver result i ws room g) h = record {
      unsent_jobs = h.unsent_jobs;
      queued = h.queued;
      held = Held-Goes IsJob (IsResult s.cancelled) g tt h.held;
      delivered =
          All-snoc (IsResult s.cancelled) s.results result h.delivered
            (Held-before IsJob (IsResult s.cancelled) g h.held);
      recorded = h.recorded;
      size = h.size;
    }
    IsChecked-Step (Step.close_results c a) h = h
    IsChecked-Step {s} (Step.collect result rest p e) h =
        let (r, rs) = subst (All (IsResult s.cancelled)) e h.delivered in
        record {
          unsent_jobs = h.unsent_jobs;
          queued = h.queued;
          held = h.held;
          delivered = rs;
          recorded = AreRuns-set s.cancelled result s.runs h.size r h.recorded;
          size = length-set s.runs result.index (some result.run) ∙ h.size;
        }
    IsChecked-Step (Step.leave p e c) h = h
    IsChecked-Step {s} (Step.cancel e) h =
        let weaken : (r : TestResult) → IsResult s.cancelled r → IsResult true r =
          λ r (f, q, d). (f, q, Ended-cancel d) in
        record {
          unsent_jobs = h.unsent_jobs;
          queued = h.queued;
          held =
              All_map (Held IsJob (IsResult s.cancelled)) (Held IsJob (IsResult true))
                (Held-map IsJob IsJob (IsResult s.cancelled) (IsResult true) (λ job j. j) weaken)
                s.workers h.held;
          delivered = All_map (IsResult s.cancelled) (IsResult true) weaken s.results h.delivered;
          recorded = λ i run e. let (f, q, d) = h.recorded i run e in (f, q, Ended-cancel d);
          size = h.size;
        }

    jobs_from-IsJob :
        (i : ℕ) (fs : List SourceFile)
        → ((j : ℕ) → get_elem? fs j ≡ get_elem? tests (i + j))
        → All IsJob (jobs_from i fs)
    jobs_from-IsJob i [] h = tt
    jobs_from-IsJob i (f ∷ fs) h = (
      rw add-zero at (sym (h 0)),
      jobs_from-IsJob (suc i) fs (λ j. h (suc j) ∙ ap (get_elem? tests) (omega arith)),
    )

    pub launched-IsChecked : (n : ℕ) (c : Bool) → IsChecked (launched n tests c)
    launched-IsChecked n c = record {
      unsent_jobs = jobs_from-IsJob 0 tests (λ j. ap (get_elem? tests) (omega arith));
      queued = tt;
      held = All-replicate (Held IsJob (IsResult c)) n Worker.ready tt;
      delivered = tt;
      recorded = λ i run e. absurd (get_elem?-replicate (length tests) i e);
      size = length-replicate (length tests) none;
    }
