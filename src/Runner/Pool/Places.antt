-- ===== src/Runner/Pool/Places.antt =====
-- Where the test with a given index is: how often it stands in each part of the pool.
use pgcov.Base.{
  ℕ, zero, suc, ◌+◌, ◌≤◌, ◌<◌, Option, none, some, List, [], ◌∷◌, ◌++◌, ◌==◌, if◌then◌else◌, ◌≡◌,
  refl, arith, length, set, get_elem?, replicate, All,
}
use pgcov.Runner.{TestRun}
use pgcov.Runner.Pool.{TestJob, TestResult, Worker, Goes, AllFinished}

abbrev pub one_at : ℕ → ℕ → ℕ
one_at i j = if j == i then 1 else 0

unfoldable pub in_jobs : ℕ → List TestJob → ℕ
in_jobs i [] = 0
in_jobs i (job ∷ jobs) = one_at i job.index + in_jobs i jobs

unfoldable pub in_results : ℕ → List TestResult → ℕ
in_results i [] = 0
in_results i (r ∷ results) = one_at i r.index + in_results i results

abbrev pub in_worker : ℕ → Worker → ℕ
in_worker i (Worker.holding job) = one_at i job.index
in_worker i (Worker.executing job) = one_at i job.index
in_worker i (Worker.delivering r) = one_at i r.index
in_worker i _ = 0

-- The sum of a number for each worker.
unfoldable pub total : (Worker → ℕ) → List Worker → ℕ
total f [] = 0
total f (w ∷ ws) = f w + total f ws

abbrev pub in_workers : ℕ → List Worker → ℕ
in_workers i = total (in_worker i)

unfoldable pub in_runs : ℕ → List (Option TestRun) → ℕ
in_runs i [] = 0
in_runs zero (none ∷ runs) = 0
in_runs zero (some run ∷ runs) = 1
in_runs (suc i) (run ∷ runs) = in_runs i runs

pub in_jobs-head :
    (i : ℕ) (job : TestJob) (rest : List TestJob)
    → in_jobs i (job ∷ rest) ≡ one_at i job.index + in_jobs i rest
unfolding in_jobs
in_jobs-head i job rest = refl

pub in_jobs-nil : (i : ℕ) → in_jobs i [] ≡ 0
unfolding in_jobs
in_jobs-nil i = refl

pub in_results-head :
    (i : ℕ) (r : TestResult) (rest : List TestResult)
    → in_results i (r ∷ rest) ≡ one_at i r.index + in_results i rest
unfolding in_results
in_results-head i r rest = refl

pub in_results-nil : (i : ℕ) → in_results i [] ≡ 0
unfolding in_results
in_results-nil i = refl

pub in_jobs-snoc :
    (i : ℕ) (jobs : List TestJob) (job : TestJob)
    → in_jobs i (jobs ++ (job ∷ [])) ≡ in_jobs i jobs + one_at i job.index
unfolding in_jobs
in_jobs-snoc i [] job = omega arith
in_jobs-snoc i (j ∷ jobs) job = omega (arith, in_jobs-snoc i jobs job)

pub in_results-snoc :
    (i : ℕ) (results : List TestResult) (r : TestResult)
    → in_results i (results ++ (r ∷ [])) ≡ in_results i results + one_at i r.index
unfolding in_results
in_results-snoc i [] r = omega arith
in_results-snoc i (q ∷ results) r = omega (arith, in_results-snoc i results r)

-- A step of one worker changes the sum by what that worker's number changes.
pub total-Goes :
    (f : Worker → ℕ) {w w' : Worker} {k : ℕ} {ws ws' : List Worker}
    → Goes w w' k ws ws'
    → total f ws' + f w ≡ total f ws + f w'
unfolding total
total-Goes f (Goes.first ws) = omega arith
total-Goes f (Goes.later v g) = omega (arith, total-Goes f g)

-- The sum is at least what the worker that takes the step adds.
pub total-le-Goes :
    (f : Worker → ℕ) {w w' : Worker} {k : ℕ} {ws ws' : List Worker}
    → Goes w w' k ws ws'
    → f w ≤ total f ws
unfolding total
total-le-Goes f (Goes.first ws) = omega arith
total-le-Goes f (Goes.later v g) = omega (arith, total-le-Goes f g)

pub total-replicate : (f : Worker → ℕ) (n : ℕ) (w : Worker) → f w ≡ 0 → total f (replicate n w) ≡ 0
unfolding total
total-replicate f zero w e = refl
total-replicate f (suc n) w e = omega (arith, e, total-replicate f n w e)

pub total-AllFinished :
    (f : Worker → ℕ) {ws : List Worker} → f Worker.finished ≡ 0 → AllFinished ws → total f ws ≡ 0
unfolding total
total-AllFinished f e AllFinished.none_left = refl
total-AllFinished f e (AllFinished.one_more a) = omega (arith, e, total-AllFinished f e a)

pub in_runs-replicate : (i n : ℕ) → in_runs i (replicate n none) ≡ 0
unfolding in_runs
in_runs-replicate i zero = refl
in_runs-replicate zero (suc n) = refl
in_runs-replicate (suc i) (suc n) = in_runs-replicate i n

-- The first run for an index is one more.
pub in_runs-set :
    (i j : ℕ) (run : TestRun) (runs : List (Option TestRun))
    → j < length runs
    → in_runs j runs ≡ 0
    → in_runs i (set runs j (some run)) ≡ in_runs i runs + one_at i j
unfolding in_runs
in_runs-set i j run [] h e = absurd (omega arith)
in_runs-set zero zero run (none ∷ runs) h e = refl
in_runs-set zero zero run (some r ∷ runs) h e = absurd (omega (arith, e))
in_runs-set (suc i) zero run (none ∷ runs) h e = ground arith
in_runs-set (suc i) zero run (some r ∷ runs) h e = ground arith
in_runs-set zero (suc j) run (none ∷ runs) h e = ground arith
in_runs-set zero (suc j) run (some r ∷ runs) h e = ground arith
in_runs-set (suc i) (suc j) run (r ∷ runs) h e =
    ground (arith, in_runs-set i j run runs (omega arith) e)

pub length-set {ℓ} : {A : Type ℓ} (xs : List A) (i : ℕ) (v : A) → length (set xs i v) ≡ length xs
length-set [] i v = refl
length-set (x ∷ xs) zero v = refl
length-set (x ∷ xs) (suc i) v = omega (arith, length-set xs i v)

pub length-replicate {ℓ} : {A : Type ℓ} (n : ℕ) (v : A) → length (replicate n v) ≡ n
length-replicate zero v = refl
length-replicate (suc n) v = omega (arith, length-replicate n v)

pub length-Goes :
    {w w' : Worker} {k : ℕ} {ws ws' : List Worker} → Goes w w' k ws ws' → length ws' ≡ length ws
length-Goes (Goes.first ws) = refl
length-Goes (Goes.later v g) = omega (arith, length-Goes g)

-- A read behind a write.
pub get_elem?-set :
    {A : Type 0} (xs : List A) (i j : ℕ) (v : A)
    → j < length xs
    → get_elem? (set xs j v) i ≡ (if j == i then some v else get_elem? xs i)
get_elem?-set [] i j v h = absurd (omega arith)
get_elem?-set (x ∷ xs) zero zero v h = refl
get_elem?-set (x ∷ xs) (suc i) zero v h = ground arith
get_elem?-set (x ∷ xs) zero (suc j) v h = ground arith
get_elem?-set (x ∷ xs) (suc i) (suc j) v h = ground (arith, get_elem?-set xs i j v (omega arith))

-- What holds of each job holds of the job or the result that a worker has, and so on.
abbrev pub Held : (TestJob → Type 0) → (TestResult → Type 0) → Worker → Type 0
Held P Q (Worker.holding job) = P job
Held P Q (Worker.executing job) = P job
Held P Q (Worker.delivering r) = Q r
Held P Q _ = Unit

pub Held-before :
    (P : TestJob → Type 0) (Q : TestResult → Type 0) {w w' : Worker} {k : ℕ} {ws ws' : List Worker}
    → Goes w w' k ws ws'
    → All (Held P Q) ws
    → Held P Q w
Held-before P Q (Goes.first ws) h = h.0
Held-before P Q (Goes.later v g) h = Held-before P Q g h.1

pub Held-Goes :
    (P : TestJob → Type 0) (Q : TestResult → Type 0) {w w' : Worker} {k : ℕ} {ws ws' : List Worker}
    → Goes w w' k ws ws'
    → Held P Q w'
    → All (Held P Q) ws
    → All (Held P Q) ws'
Held-Goes P Q (Goes.first ws) q h = (q, h.1)
Held-Goes P Q (Goes.later v g) q h = (h.0, Held-Goes P Q g q h.1)

pub Held-map :
    (P P' : TestJob → Type 0) (Q Q' : TestResult → Type 0)
    → ((job : TestJob) → P job → P' job)
    → ((r : TestResult) → Q r → Q' r)
    → (w : Worker) → Held P Q w
    → Held P' Q' w
Held-map P P' Q Q' p q Worker.ready h = tt
Held-map P P' Q Q' p q Worker.finished h = tt
Held-map P P' Q Q' p q (Worker.holding job) h = p job h
Held-map P P' Q Q' p q (Worker.executing job) h = p job h
Held-map P P' Q Q' p q (Worker.delivering r) h = q r h

pub All-snoc {ℓ} :
    {A : Type ℓ} (P : A → Type 0) (xs : List A) (a : A) → All P xs → P a → All P (xs ++ (a ∷ []))
All-snoc P [] a h p = (p, tt)
All-snoc P (x ∷ xs) a h p = (h.0, All-snoc P xs a h.1 p)

pub All-replicate {ℓ} : {A : Type ℓ} (P : A → Type 0) (n : ℕ) (a : A) → P a → All P (replicate n a)
All-replicate P zero a p = tt
All-replicate P (suc n) a p = (p, All-replicate P n a p)

-- Nothing is recorded at first.
pub get_elem?-replicate :
    {A : Type 0} (n i : ℕ) {a : A} → get_elem? (replicate n none) i ≡ some (some a) → ⊥
get_elem?-replicate zero i e = cc
get_elem?-replicate (suc n) zero e = cc
get_elem?-replicate (suc n) (suc i) e = get_elem?-replicate n i e

pub get_elem?-lt :
    {A : Type 0} (xs : List A) (i : ℕ) {a : A} → get_elem? xs i ≡ some a → i < length xs
get_elem?-lt [] i e = cc
get_elem?-lt (x ∷ xs) zero e = omega arith
get_elem?-lt (x ∷ xs) (suc i) e = omega (arith, get_elem?-lt xs i e)

-- An index that is counted among the runs has a run.
pub get_elem?-in_runs :
    (i : ℕ) (runs : List (Option TestRun))
    → in_runs i runs ≡ 1
    → (run : TestRun) × (get_elem? runs i ≡ some (some run))
unfolding in_runs
get_elem?-in_runs i [] e = absurd (omega (arith, e))
get_elem?-in_runs zero (none ∷ runs) e = absurd (omega (arith, e))
get_elem?-in_runs zero (some run ∷ runs) e = (run, refl)
get_elem?-in_runs (suc i) (r ∷ runs) e = get_elem?-in_runs i runs e
