-- ===== src/Runner/Pool/Progress.antt =====
-- The pool never blocks, and comes to an end.
use pgcov.Base.{
  ℕ, zero, suc, ◌+◌, ◌*◌, ◌≤◌, ◌<◌, Bool, true, List, [], ◌∷◌, if◌then◌else◌, ◌≡◌, ◌⊎◌, inl, inr,
  refl, ap, arith, length, length-append, replicate, Bool-cases,
}
use pgcov.Runner.{TestRun}
use pgcov.Instrument.Files.{SourceFile}
use pgcov.Runner.Pool.{
  TestJob, TestResult, Worker, Phase, System, Goes, AllFinished, Step, Steps, launched,
}
use pgcov.Runner.Pool.Places.{total, total-Goes}
use pgcov.Runner.Pool.Shape.{jobs_from-length}
use pgcov.Runner.Pool.Complete.{IsGood, Step-IsGood, launched-IsGood, Steps-IsGood}

-- How many steps a worker can take with what it has.
abbrev weight : Worker → ℕ
weight Worker.finished = 0
weight Worker.ready = 1
weight (Worker.delivering r) = 3
weight (Worker.executing job) = 4
weight (Worker.holding job) = 5

abbrev phase_weight : Phase → ℕ
phase_weight Phase.sending = 2
phase_weight Phase.collecting = 1
phase_weight Phase.returned = 0

-- A bound on the steps that are left.
pub measure : System → ℕ
measure s =
    6 * length s.unsent
    + 5 * length s.jobs
    + total weight s.workers
    + length s.results
    + phase_weight s.phase
    + (if s.results_closed then 0 else 1)
    + (if s.cancelled then 0 else 1)

total-weight : (n : ℕ) → total weight (replicate n Worker.ready) ≡ n
unfolding total
total-weight zero = refl
total-weight (suc n) = omega (arith, total-weight n)

-- A worker that has not returned: it stands at some place, and can go on to any state.
data Unfinished : List Worker → Type 0 where
  waits :
      {ws : List Worker} (i : ℕ)
      → ((w : Worker) → (ws' : List Worker) × Goes Worker.ready w i ws ws')
      → Unfinished ws
  holds :
      {ws : List Worker} (i : ℕ) (job : TestJob)
      → ((w : Worker) → (ws' : List Worker) × Goes (Worker.holding job) w i ws ws')
      → Unfinished ws
  runs :
      {ws : List Worker} (i : ℕ) (job : TestJob)
      → ((w : Worker) → (ws' : List Worker) × Goes (Worker.executing job) w i ws ws')
      → Unfinished ws
  brings :
      {ws : List Worker} (i : ℕ) (r : TestResult)
      → ((w : Worker) → (ws' : List Worker) × Goes (Worker.delivering r) w i ws ws')
      → Unfinished ws

unfinished_behind : (v : Worker) {ws : List Worker} → Unfinished ws → Unfinished (v ∷ ws)
unfinished_behind v (waits i g) =
    waits (suc i) (λ w. let (ws', q) = g w in (v ∷ ws', Goes.later v q))
unfinished_behind v (holds i job g) =
    holds (suc i) job (λ w. let (ws', q) = g w in (v ∷ ws', Goes.later v q))
unfinished_behind v (runs i job g) =
    runs (suc i) job (λ w. let (ws', q) = g w in (v ∷ ws', Goes.later v q))
unfinished_behind v (brings i r g) =
    brings (suc i) r (λ w. let (ws', q) = g w in (v ∷ ws', Goes.later v q))

-- All workers have returned, or one has not.
some_unfinished : (ws : List Worker) → AllFinished ws ⊎ Unfinished ws
some_unfinished [] = inl AllFinished.none_left
some_unfinished (Worker.finished ∷ ws) = elim (some_unfinished ws) [
  | inl a ↦ inl (AllFinished.one_more a)
  | inr u ↦ inr (unfinished_behind Worker.finished u)
]
some_unfinished (Worker.ready ∷ ws) = inr (waits 0 (λ w. (w ∷ ws, Goes.first ws)))
some_unfinished (Worker.holding job ∷ ws) = inr (holds 0 job (λ w. (w ∷ ws, Goes.first ws)))
some_unfinished (Worker.executing job ∷ ws) = inr (runs 0 job (λ w. (w ∷ ws, Goes.first ws)))
some_unfinished (Worker.delivering r ∷ ws) = inr (brings 0 r (λ w. (w ∷ ws, Goes.first ws)))

List-cases : {A : Type 0} (xs : List A) → (xs ≡ []) ⊎ ((x : A) × (rest : List A) × (xs ≡ x ∷ rest))
List-cases [] = inl refl
List-cases (x ∷ xs) = inr (x, xs, refl)

Phase-cases : (p : Phase) → (p ≡ Phase.sending) ⊎ ((p ≡ Phase.collecting) ⊎ (p ≡ Phase.returned))
Phase-cases Phase.sending = inl refl
Phase-cases Phase.collecting = inr (inl refl)
Phase-cases Phase.returned = inr (inr refl)

module _ (Outcome : SourceFile → TestRun → Type 0) where
  -- Each step uses up the bound.
  pub measure-Step : {s t : System} → Step Outcome s t → measure t < measure s
  unfolding measure
  measure-Step {s} (Step.send job rest p e room) =
      omega (arith, ap length e, length-append {0} s.jobs (job ∷ []))
  measure-Step (Step.close_jobs p e) = rw p (omega arith)
  measure-Step (Step.receive job rest i ws e g) = omega (arith, ap length e, total-Goes weight g)
  measure-Step (Step.finish i ws e c g) = omega (arith, total-Goes weight g)
  measure-Step (Step.start job i ws c g) = omega (arith, total-Goes weight g)
  measure-Step (Step.skip job d r i ws c g) = omega (arith, total-Goes weight g)
  measure-Step (Step.execute job run i ws o g) = omega (arith, total-Goes weight g)
  measure-Step {s} (Step.deliver result i ws room g) =
      omega (arith, total-Goes weight g, length-append {0} s.results (result ∷ []))
  measure-Step (Step.close_results c a) = rw c (omega arith)
  measure-Step (Step.collect result rest p e) = omega (arith, ap length e)
  measure-Step (Step.leave p e c) = rw p (omega arith)
  measure-Step (Step.cancel e) = rw e (omega arith)

  measure-Steps :
      {s : System} {k : ℕ} {t : System} → Steps Outcome s k t → k + measure t ≤ measure s
  measure-Steps Steps.here = omega arith
  measure-Steps (Steps.next r st) = omega (arith, measure-Steps r, measure-Step st)

  Steps-cons :
      {s t : System} {k : ℕ} {u : System}
      → Step Outcome s t
      → Steps Outcome t k u
      → Steps Outcome s (suc k) u
  Steps-cons st Steps.here = Steps.next Steps.here st
  Steps-cons st (Steps.next r last) = Steps.next (Steps-cons st r) last

  -- However the steps interleave, the pool takes at most six for each test, one for each worker and
  -- four more, a cancellation included.
  pub steps_bounded :
      (n k : ℕ) (tests : List SourceFile) (cancelled : Bool) (s : System)
      → Steps Outcome (launched n tests cancelled) k s
      → k ≤ 6 * length tests + n + 4
  unfolding measure
  steps_bounded n k tests c s r =
      let bound : measure (launched n tests c) ≤ 6 * length tests + n + 4 =
        ground (arith, jobs_from-length 0 tests, total-weight n) in
      omega (arith, measure-Steps r, bound)

  module _ (returns : (f : SourceFile) → (run : TestRun) × Outcome f run) where
    -- The pool can take a step.
    abbrev Enabled : System → Type 0
    Enabled s = (t : System) × Step Outcome s t

    worker_step :
        (s : System)
        → 0 < s.room
        → s.jobs_closed ≡ true
        → s.results ≡ []
        → Unfinished s.workers
        → Enabled s
    worker_step s room closed e (waits i g) = elim (List-cases s.jobs) [
      | inl q ↦ (_, Step.finish i (g Worker.finished).0 q closed (g Worker.finished).1)
      | inr (job, rest, q) ↦
          (_, Step.receive job rest i (g (Worker.holding job)).0 q (g (Worker.holding job)).1)
    ]
    worker_step s room closed e (holds i job g) = elim (Bool-cases s.cancelled) [
      | inl c ↦ (_, Step.skip job 0 [] i _ c (g _).1)
      | inr c ↦ (_, Step.start job i _ c (g _).1)
    ]
    worker_step s room closed e (runs i job g) =
        let (run, o) = returns job.test_file in (_, Step.execute job run i _ o (g _).1)
    worker_step s room closed e (brings i r g) =
        (_, Step.deliver r i _ (omega (arith, ap length e, room)) (g Worker.ready).1)

    collecting_step :
        (n : ℕ) (tests : List SourceFile) (s : System)
        → 0 < length tests
        → IsGood Outcome n tests s
        → s.phase ≡ Phase.collecting
        → s.results ≡ []
        → Enabled s
    collecting_step n tests s pos h p q = elim (Bool-cases s.results_closed) [
      | inl c ↦ (_, Step.leave p q c)
      | inr c ↦ elim (some_unfinished s.workers) [
        | inl a ↦ (_, Step.close_results c a)
        | inr u ↦ elim (Bool-cases s.jobs_closed) [
          | inl closed ↦ worker_step s (omega (arith, h.room, pos)) closed q u
          | inr open_jobs ↦ let x = h.shaped.ranging open_jobs in absurd (cc)
        ]
      ]
    ]

    enabled :
        (n : ℕ) (tests : List SourceFile) (s : System)
        → 0 < length tests
        → IsGood Outcome n tests s
        → (s.phase ≡ Phase.returned) ⊎ Enabled s
    enabled n tests s pos h = elim (Phase-cases s.phase) [
      | inl p ↦ inr (elim (List-cases s.unsent) [
        | inl q ↦ (_, Step.close_jobs p q)
        | inr (job, rest, q) ↦
            (_, Step.send job rest p q (omega (arith, h.shaped.fits, ap length q)))
      ])
      | inr (inr p) ↦ inl p
      | inr (inl p) ↦ inr (elim (List-cases s.results) [
        | inr (r, rest, q) ↦ (_, Step.collect r rest p q)
        | inl q ↦ collecting_step n tests s pos h p q
      ])
    ]

    returns_within :
        (m n : ℕ) (tests : List SourceFile) (s : System)
        → measure s ≤ m
        → 0 < length tests
        → IsGood Outcome n tests s
        → (k : ℕ) × (t : System) × Steps Outcome s k t × (t.phase ≡ Phase.returned)
    returns_within zero n tests s bound pos h = elim (enabled n tests s pos h) [
      | inl p ↦ (0, s, Steps.here, p)
      | inr (t, st) ↦ absurd (omega (arith, bound, measure-Step st))
    ]
    returns_within (suc m) n tests s bound pos h = elim (enabled n tests s pos h) [
      | inl p ↦ (0, s, Steps.here, p)
      | inr (t, st) ↦
          let (k, u, r, p) =
            returns_within m n tests t (omega (arith, bound, measure-Step st)) pos
              (Step-IsGood Outcome st h) in
          (suc k, u, Steps-cons st r, p)
    ]

    -- Where `Execute` returns for every test, the pool never blocks for good: from every state that it
    -- reaches with at least one test, whether or not the context is done, steps lead to one in which
    -- ExecuteParallel returns.
    pub pool_returns :
        (n k : ℕ) (tests : List SourceFile) (cancelled : Bool) (s : System)
        → 0 < length tests
        → Steps Outcome (launched n tests cancelled) k s
        → (more : ℕ) × (t : System) × Steps Outcome s more t × (t.phase ≡ Phase.returned)
    pool_returns n k tests cancelled s pos r =
        returns_within (measure s) n tests s (omega arith) pos
          (Steps-IsGood Outcome r (launched-IsGood Outcome n tests cancelled))
