-- ===== src/Runner/Pool.antt =====
-- The worker pool of internal/runner/parallel.go, as interleavings: each step is one action of the
-- caller, of a worker, of the goroutine that closes the results, or of who cancels the context.
pub mod Places
pub mod Checked
pub mod Counted
pub mod Shape
pub mod Complete
pub mod Progress
use pgcov.Base.{
  ℕ, zero, suc, ◌+◌, ◌<◌, Bool, true, false, ◌||◌, Option, none, some, List, [], ◌∷◌, ◌++◌, ◌==◌,
  ltb, if◌then◌else◌, Bytes, ◌≡◌, length, set, replicate, map,
}
use pgcov.Runner.{TestStatus, TestRun}
use pgcov.Instrument.Files.{SourceFile}

pub record WorkerPool : Type 0 where
  pub max_workers : ℕ
  pub verbose : Bool

-- `maxWorkers` is an `int`, of which the negative ones are 0 here: both are set to 1.
unfoldable pub new_worker_pool : ℕ → Bool → WorkerPool
new_worker_pool max_workers verbose = record {
  max_workers = if ltb max_workers 1 then 1 else max_workers;
  verbose = verbose;
}

pub record TestJob : Type 0 where
  pub test_file : SourceFile
  pub index : ℕ

pub record TestResult : Type 0 where
  pub run : TestRun
  pub index : ℕ
  pub worker_id : ℕ

-- The jobs for the tests from position `i` on.
abbrev pub jobs_from : ℕ → List SourceFile → List TestJob
jobs_from i [] = []
jobs_from i (f ∷ fs) = (record { test_file = f; index = i }) ∷ jobs_from (suc i) fs

-- Where a worker stands: it waits for a job; it has one and has not looked at the context; it is in
-- `Execute`; it has a result to send; it has returned.
pub data Worker : Type 0 where
  ready finished : Worker
  holding executing : TestJob → Worker
  delivering : TestResult → Worker

-- Where the caller stands: it sends jobs, it ranges over the results, it has returned.
pub data Phase : Type 0 where
  sending collecting returned : Phase

-- `jobs` and `results` are what the two channels hold, each with room for `room` of them.
pub record System : Type 0 where
  pub room : ℕ
  pub phase : Phase
  pub unsent : List TestJob
  pub jobs : List TestJob
  pub jobs_closed : Bool
  pub workers : List Worker
  pub results : List TestResult
  pub results_closed : Bool
  pub runs : List (Option TestRun)
  pub cancelled : Bool

-- One worker, the one with this number, goes from `w` to `w'`.
pub data Goes (w w' : Worker) : ℕ → List Worker → List Worker → Type 0 where
  first : (ws : List Worker) → Goes w w' zero (w ∷ ws) (w' ∷ ws)
  later :
      {i : ℕ} {ws ws' : List Worker} (v : Worker)
      → Goes w w' i ws ws'
      → Goes w w' (suc i) (v ∷ ws) (v ∷ ws')

-- `wg.Wait()` returns once every worker has.
pub data AllFinished : List Worker → Type 0 where
  none_left : AllFinished []
  one_more : {ws : List Worker} → AllFinished ws → AllFinished (finished ∷ ws)

-- The run of a test that the pool does not start because the context is done.
abbrev pub cancelled_run : SourceFile → ℕ → Bytes → TestRun
cancelled_run f duration reason = record {
  test = some f;
  database = [];
  duration = duration;
  status = TestStatus.test_failed;
  error = some reason;
  coverage_sigs = [];
}

-- The state in which the workers have been started.
abbrev pub launched : ℕ → List SourceFile → Bool → System
launched max_workers tests cancelled = record {
  room = length tests;
  phase = Phase.sending;
  unsent = jobs_from 0 tests;
  jobs = [];
  jobs_closed = false;
  workers = replicate max_workers Worker.ready;
  results = [];
  results_closed = false;
  runs = replicate (length tests) none;
  cancelled = cancelled;
}

-- `Outcome f run`: `Execute` may return this run for the test, on a server that other tests use.
module _ (Outcome : SourceFile → TestRun → Type 0) where
  pub data Step (s : System) : System → Type 0 where
    send :
        (job : TestJob) (rest : List TestJob)
        → s.phase ≡ Phase.sending
        → s.unsent ≡ job ∷ rest
        → length s.jobs < s.room
        → Step s (record s { unsent = rest; jobs = s.jobs ++ (job ∷ []) })
    close_jobs :
        s.phase ≡ Phase.sending
        → s.unsent ≡ []
        → Step s (record s { phase = Phase.collecting; jobs_closed = true })
    receive :
        (job : TestJob) (rest : List TestJob) (i : ℕ) (ws : List Worker)
        → s.jobs ≡ job ∷ rest
        → Goes Worker.ready (Worker.holding job) i s.workers ws
        → Step s (record s { jobs = rest; workers = ws })
    finish :
        (i : ℕ) (ws : List Worker)
        → s.jobs ≡ []
        → s.jobs_closed ≡ true
        → Goes Worker.ready Worker.finished i s.workers ws
        → Step s (record s { workers = ws })
    start :
        (job : TestJob) (i : ℕ) (ws : List Worker)
        → s.cancelled ≡ false
        → Goes (Worker.holding job) (Worker.executing job) i s.workers ws
        → Step s (record s { workers = ws })
    skip :
        (job : TestJob) (duration : ℕ) (reason : Bytes) (i : ℕ) (ws : List Worker)
        → s.cancelled ≡ true
        → Goes
            (Worker.holding job)
            (Worker.delivering (record {
              run = cancelled_run job.test_file duration reason;
              index = job.index;
              worker_id = i;
            }))
            i
            s.workers
            ws
        → Step s (record s { workers = ws })
    execute :
        (job : TestJob) (run : TestRun) (i : ℕ) (ws : List Worker)
        → Outcome job.test_file run
        → Goes
            (Worker.executing job)
            (Worker.delivering (record { run = run; index = job.index; worker_id = i }))
            i
            s.workers
            ws
        → Step s (record s { workers = ws })
    deliver :
        (result : TestResult) (i : ℕ) (ws : List Worker)
        → length s.results < s.room
        → Goes (Worker.delivering result) Worker.ready i s.workers ws
        → Step s (record s { workers = ws; results = s.results ++ (result ∷ []) })
    close_results :
        s.results_closed ≡ false
        → AllFinished s.workers
        → Step s (record s { results_closed = true })
    collect :
        (result : TestResult) (rest : List TestResult)
        → s.phase ≡ Phase.collecting
        → s.results ≡ result ∷ rest
        → Step s (record s { results = rest; runs = set s.runs result.index (some result.run) })
    leave :
        s.phase ≡ Phase.collecting
        → s.results ≡ []
        → s.results_closed ≡ true
        → Step s (record s { phase = Phase.returned })
    cancel : s.cancelled ≡ false → Step s (record s { cancelled = true })

  -- `Steps k s t`: `k` steps lead from `s` to `t`.
  pub data Steps (s : System) : ℕ → System → Type 0 where
    here : Steps s zero s
    next : {k : ℕ} {t u : System} → Steps s k t → Step t u → Steps s (suc k) u

  -- The runs of `ExecuteBatch`: one test after the other, until the context is done behind one. The
  -- flag says whether the context is done at the end.
  pub data Batch : List SourceFile → Bool → List TestRun → Type 0 where
    done : (c : Bool) → Batch [] c []
    stop :
        {c : Bool} (f : SourceFile) (run : TestRun) (rest : List SourceFile)
        → Outcome f run
        → c ≡ true
        → Batch (f ∷ rest) c (run ∷ [])
    more :
        {fs : List SourceFile} {c : Bool} {runs : List TestRun} (f : SourceFile) (run : TestRun)
        → Outcome f run
        → Batch fs c runs
        → Batch (f ∷ fs) c (run ∷ runs)

  -- The results of `ExecuteParallel`, none of which is an error.
  pub data ExecuteParallel (wp : WorkerPool) (tests : List SourceFile) (c : Bool)
      (runs : List (Option TestRun)) : Type 0 where
    no_tests : length tests ≡ 0 → runs ≡ [] → ExecuteParallel wp tests c runs
    one_by_one :
        (batch : List TestRun)
        → (length tests == 0) ≡ false
        → (wp.max_workers == 1 || length tests == 1) ≡ true
        → Batch tests c batch
        → runs ≡ map some batch
        → ExecuteParallel wp tests c runs
    concurrent :
        (cancelled : Bool) (k : ℕ) (s : System)
        → (length tests == 0) ≡ false
        → (wp.max_workers == 1 || length tests == 1) ≡ false
        → Steps (launched wp.max_workers tests cancelled) k s
        → s.phase ≡ Phase.returned
        → s.cancelled ≡ c
        → runs ≡ s.runs
        → ExecuteParallel wp tests c runs
