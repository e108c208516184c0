-- ===== src/Runner/Pool/Counted.antt =====
-- Each test is in exactly one place of the pool.
use pgcov.Base.{
  subst, All, leb, ltb, ◌&&◌, ℕ, suc, ◌+◌, ◌<◌, Bool, List, [], ◌∷◌, if◌then◌else◌, ◌≡◌, refl, ap,
  arith, length,
}
use pgcov.Runner.{TestRun}
use pgcov.Instrument.Files.{SourceFile}
use pgcov.Runner.Pool.{Worker, System, jobs_from, Step, launched}
use pgcov.Runner.Pool.Places.{
  one_at, in_jobs, in_results, in_worker, in_workers, in_runs, in_jobs-head, in_jobs-nil,
  in_results-head, in_results-nil, in_jobs-snoc, in_results-snoc, total-Goes, total-replicate,
  in_runs-replicate, in_runs-set, get_elem?-lt,
}
use pgcov.Runner.Pool.Checked.{IsChecked, IsResult}

-- How often the index stands in the pool.
abbrev pub places : ℕ → System → ℕ
places i s =
    in_jobs i s.unsent
    + in_jobs i s.jobs
    + in_workers i s.workers
    + in_results i s.results
    + in_runs i s.runs

module _ (Outcome : SourceFile → TestRun → Type 0) (tests : List SourceFile) where
  abbrev pub IsCounted : System → Type 0
  IsCounted s = (i : ℕ) → i < length tests → places i s ≡ 1

  pub IsCounted-Step :
      {s t : System} → Step Outcome s t → IsChecked Outcome tests s → IsCounted s → IsCounted t
  IsCounted-Step {s} (Step.send job rest p e room) k h = λ i lt.
      omega (arith, h i lt, ap (in_jobs i) e, in_jobs-head i job rest, in_jobs-snoc i s.jobs job)
  IsCounted-Step (Step.close_jobs p e) k h = h
  IsCounted-Step {s} (Step.receive job rest w ws e g) k h = λ i lt.
      omega (arith, h i lt, ap (in_jobs i) e, in_jobs-head i job rest, total-Goes (in_worker i) g)
  IsCounted-Step (Step.finish w ws e c g) k h =
      λ i lt. omega (arith, h i lt, total-Goes (in_worker i) g)
  IsCounted-Step (Step.start job w ws c g) k h =
      λ i lt. omega (arith, h i lt, total-Goes (in_worker i) g)
  IsCounted-Step (Step.skip job d r w ws c g) k h =
      λ i lt. omega (arith, h i lt, total-Goes (in_worker i) g)
  IsCounted-Step (Step.execute job run w ws o g) k h =
      λ i lt. omega (arith, h i lt, total-Goes (in_worker i) g)
  IsCounted-Step {s} (Step.deliver result w ws room g) k h =
      λ i lt. omega (arith, h i lt, in_results-snoc i s.results result, total-Goes (in_worker i) g)
  IsCounted-Step (Step.close_results c a) k h = h
  IsCounted-Step {s} (Step.collect result rest p e) k h = λ i lt.
      let ((f, q, _), _) = subst (All (IsResult Outcome tests s.cancelled)) e k.delivered in
      let j = result.index in
      let below : j < length tests = get_elem?-lt tests j q in
      let self : one_at j j ≡ 1 = ground arith in
      let fresh : in_runs j s.runs ≡ 0 =
        omega (arith, self, h j below, ap (in_results j) e, in_results-head j result rest) in
      omega (
        arith,
        h i lt,
        ap (in_results i) e,
        in_results-head i result rest,
        in_runs-set i j result.run s.runs (omega (arith, k.size)) fresh,
      )
  IsCounted-Step (Step.leave p e c) k h = h
  IsCounted-Step (Step.cancel e) k h = h

  in_jobs-jobs_from :
      (i k : ℕ) (fs : List SourceFile)
      → in_jobs i (jobs_from k fs) ≡ (if leb k i && ltb i (k + length fs) then 1 else 0)
  unfolding in_jobs
  in_jobs-jobs_from i k [] = ground arith
  in_jobs-jobs_from i k (f ∷ fs) = ground (arith, in_jobs-jobs_from i (suc k) fs)

  pub launched-IsCounted : (n : ℕ) (c : Bool) → IsCounted (launched n tests c)
  launched-IsCounted n c i lt =
      let all : in_jobs i (jobs_from 0 tests) ≡ 1 = ground (arith, in_jobs-jobs_from i 0 tests) in
      omega (
        arith,
        all,
        in_jobs-nil i,
        in_results-nil i,
        total-replicate (in_worker i) n Worker.ready refl,
        in_runs-replicate i (length tests),
      )
