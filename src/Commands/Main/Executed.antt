-- ===== src/Commands/Main/Executed.antt =====
-- What has been executed where `pgcov run` exits with 0.
use pgcov.Base.{
  ℕ, Bool, true, false, ◌&&◌, if◌then◌else◌, Option, none, some, List, [], ◌∷◌, Bytes, map, All, ok,
  ◌≡◌, refl, subst,
}
use pgcov.Config.{Config, RunFlags, FloatTests}
use pgcov.Instrument.Files.{SourceFile, InstrumentedSql}
use pgcov.Runner.{TestStatus, TestRun}
use pgcov.Runner.Exit.{IsGood}
use pgcov.Runner.Workflow.{Server, WorkflowError, execute, outcome, sources_of}
use pgcov.Runner.Workflow.Order.{Passed, Keeps, execute_passes}
use pgcov.Runner.Workflow.Runs.{
  Executor, new_executor, set_setup_scripts, use_explicit_sources, execute_for,
}
use pgcov.Runner.Pool.Complete.{RunEach}
use pgcov.Database.{Session}
use pgcov.Commands.Run.{Env, Prepared, is_explicit, prepare, setup_scripts}
use pgcov.Commands.Main.{search_path_of, config_of, RunCommand}
use pgcov.Commands.Main.Codes.{AllPassed, RunCommand-zero}

-- The executor that `Run` makes, for a channel, explicit sources or not, and setup scripts.
abbrev pub executor_of : {F : Type 0} → Config F → Bytes → Bool → List (Bytes × Bytes) → Executor
executor_of c name true scripts =
    set_setup_scripts scripts
      (use_explicit_sources (new_executor c.timeout c.signal_timeout c.verbose name))
executor_of c name false scripts =
    set_setup_scripts scripts (new_executor c.timeout c.signal_timeout c.verbose name)

module _ {V : Type 0} (server : Server V) (show : WorkflowError → Bytes) where
  not-IsGood : (b : Bool) → ¬ IsGood (if b then TestStatus.test_timeout else TestStatus.test_failed)
  not-IsGood true g = elim g [ ]
  not-IsGood false g = elim g [ ]

  IsGood-outcome :
      (r : Option WorkflowError) (w : V)
      → IsGood (outcome server r w)
      → outcome server r w ≡ TestStatus.test_passed
  IsGood-outcome none w g = refl
  IsGood-outcome (some e) w g =
      absurd
        (not-IsGood (server.is_timed_out w && (if server.is_cancelled w then false else true)) g)

  -- A run that `Execute` returns has passed if it neither failed nor timed out.
  execute-IsGood :
      (b : Bool) (scripts : List (Bytes × Bytes)) (f : SourceFile) (sources : List InstrumentedSql)
      (w : V)
      → IsGood (execute server b scripts f sources w).1.current
      → (execute server b scripts f sources w).1.current ≡ TestStatus.test_passed
  unfolding execute
  execute-IsGood b scripts f sources w g = IsGood-outcome _ _ g

  -- The run is what `Execute` returns in some state of the world, which may hold what other tests do.
  abbrev pub Executes :
      {F : Type 0}
      → Config F
      → Bool
      → List (Bytes × Bytes)
      → List InstrumentedSql
      → SourceFile
      → TestRun
      → Type 0
  Executes c b scripts sources f run =
      (name : Bytes) × (duration : ℕ) × (w : V) × (run
        ≡ execute_for server show (executor_of c name b scripts) f sources duration w)

  -- The setup scripts, the sources of the test and then its content were executed, and nothing else.
  abbrev pub TestExecuted : Bool → List (Bytes × Bytes) → List InstrumentedSql → SourceFile → Type 0
  TestExecuted b scripts sources f =
      (w : V) × Keeps server
        (Passed server scripts f.path (sources_of server b sources (server.dir f.path)))
        (record { world = w; log = []; name = []; current = TestStatus.test_pending; sigs = [] })
        (execute server b scripts f sources w).1

  Executes-TestExecuted :
      {F : Type 0} (c : Config F) (b : Bool) (scripts : List (Bytes × Bytes))
      (sources : List InstrumentedSql) (f : SourceFile) (run : TestRun)
      → Executes c b scripts sources f run
      → IsGood run.status
      → TestExecuted b scripts sources f
  unfolding execute_for new_executor
  Executes-TestExecuted c true scripts sources f run (name, duration, w, e) g = (
    w,
    execute_passes server true scripts f sources w
        (execute-IsGood true scripts f sources w (subst (λ r. IsGood r.status) e g)),
  )
  Executes-TestExecuted c false scripts sources f run (name, duration, w, e) g = (
    w,
    execute_passes server false scripts f sources w
        (execute-IsGood false scripts f sources w (subst (λ r. IsGood r.status) e g)),
  )

module _ {F O P W V : Type 0} (env : Env F O P W) (tests : FloatTests F) (no_threshold : F)
    (server : Server V) (show : WorkflowError → Bytes) (is_set : Bytes → Bool) (flags : RunFlags F)
    (first : Bytes) where
  abbrev chosen : Config F
  chosen = config_of no_threshold is_set flags

  abbrev search_path : Bytes
  search_path = search_path_of first

  -- No test was found; or the setup scripts, the sources of the test and its content were executed for
  -- each of the tests that were found.
  pub data AllExecuted : Type 0 where
    no_test_found : prepare env chosen search_path ≡ ok none → AllExecuted
    each_executed :
        (p : Prepared) (scripts : List (Bytes × Bytes))
        → prepare env chosen search_path ≡ ok (some p)
        → setup_scripts env chosen search_path ≡ ok scripts
        → All
            (TestExecuted server show (is_explicit env chosen search_path) scripts p.sources)
            p.tests
        → AllExecuted

  each_TestExecuted :
      (scripts : List (Bytes × Bytes)) (sources : List InstrumentedSql) (fs : List SourceFile)
      (runs : List TestRun)
      → RunEach
          (Executes server show chosen (is_explicit env chosen search_path) scripts sources)
          fs
          (map some runs)
      → All (λ r. IsGood r.status) runs
      → All (TestExecuted server show (is_explicit env chosen search_path) scripts sources) fs
  each_TestExecuted scripts sources [] runs h g = tt
  each_TestExecuted scripts sources (f ∷ fs) [] h g = elim h [ ]
  each_TestExecuted scripts sources (f ∷ fs) (r ∷ runs) h g =
      let (run, q, o) = h.0 in
      let same : r ≡ run = cc in
      (
        Executes-TestExecuted server show chosen (is_explicit env chosen search_path) scripts
            sources f run o (subst (λ x. IsGood x.status) same g.0),
        each_TestExecuted scripts sources fs runs h.1 g.1,
      )

  AllPassed-AllExecuted :
      AllPassed env tests no_threshold (Executes server show chosen) is_set flags first
      → AllExecuted
  AllPassed-AllExecuted (AllPassed.nothing_to_run h) = AllExecuted.no_test_found h
  AllPassed-AllExecuted (AllPassed.each_passed p scripts runs h k r g) =
      AllExecuted.each_executed p scripts h k (each_TestExecuted scripts p.sources p.tests runs r g)

  -- Where `pgcov run` exits with 0 and each run is one that Execute returned for its test: no test was
  -- found, or for every test that was found the setup scripts, then the instrumented sources that
  -- belong to the test, then the content of the test file were executed, in this order and nothing
  -- else.
  pub RunCommand-AllExecuted :
      {s s' : Session P W}
      → RunCommand env tests no_threshold (Executes server show chosen) is_set flags first s 0 s'
      → AllExecuted
  RunCommand-AllExecuted r =
      AllPassed-AllExecuted
        (RunCommand-zero env tests no_threshold (Executes server show chosen) is_set flags first r
          refl).1
