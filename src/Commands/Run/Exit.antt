-- ===== src/Commands/Run/Exit.antt =====
-- When `Run` exits with 0.
use pgcov.Base.{
  ℕ, zero, suc, Bool, true, false, ◌||◌, ◌==◌, Option, none, some, List, [], ◌∷◌, Bytes, length,
  map, get_elem?, All, ok, ◌≡◌, refl, sym, ap, ◌∙◌, subst, arith, ◌⊎◌, inl, inr,
}
use pgcov.Config.{Config}
use pgcov.Instrument.Files.{SourceFile, InstrumentedSql}
use pgcov.Coverage.{Coverage, executable_position_counts, has_executable_positions}
use pgcov.Coverage.Store.{StoreError, save}
use pgcov.Signal.{SignalError}
use pgcov.Database.{Session}
use pgcov.Runner.{TestRun}
use pgcov.Runner.Exit.{IsGood, Meets, run_exit_code_lem}
use pgcov.Runner.Pool.{new_worker_pool, Batch, ExecuteParallel}
use pgcov.Runner.Pool.Checked.{Ended}
use pgcov.Runner.Pool.Complete.{
  RunEach, RunEach-of, Batch-RunEach, no_tests_RunEach, pool_fills, new_worker_pool_pos,
}
use pgcov.Runner.Pool.Places.{get_elem?-lt}
use pgcov.Commands.Run.{
  Env, Prepared, Ending, is_parallel, is_explicit, present, prepare, setup_scripts, collected,
  saved_coverage, code, after_save, after_collect, conclude, Executed, Run,
}

abbrev AllGood : List TestRun → Type 0
AllGood = All (λ r. IsGood r.status)

present-cons :
    (run : TestRun) (r : Option (List TestRun)) (rs : List TestRun)
    → (elim r as (λ _. Option (List TestRun)) [ none ↦ none | some ts ↦ some (run ∷ ts) ]) ≡ some rs
    → (ts : List TestRun) × (r ≡ some ts) × (run ∷ ts ≡ rs)
present-cons run none rs h = cc
present-cons run (some ts) rs h = (ts, refl, (cc))

-- Where no run is nil, the runs are those that are present.
present-some :
    (runs : List (Option TestRun)) (rs : List TestRun) → present runs ≡ some rs → runs ≡ map some rs
present-some [] rs h = let e : [] ≡ rs = cc in ap (map some) e
present-some (none ∷ runs) rs h = cc
present-some (some run ∷ runs) rs h =
    let (ts, q, e) = present-cons run (present runs) rs h in
    ap (◌∷◌ (some run)) (present-some runs ts q) ∙ ap (map some) e

IsGood-at :
    (rs : List TestRun) (i : ℕ) (run : TestRun)
    → AllGood rs
    → get_elem? (map some rs) i ≡ some (some run)
    → IsGood run.status
IsGood-at [] i run g h = cc
IsGood-at (r ∷ rs) zero run g h = let e : r ≡ run = cc in subst (λ x. IsGood x.status) e g.0
IsGood-at (r ∷ rs) (suc i) run g h = IsGood-at rs i run g.1 h

one_test :
    (n : ℕ) (v : Bool) (tests : List SourceFile)
    → is_parallel n ≡ true
    → ((new_worker_pool n v).max_workers == 1 || length tests == 1) ≡ true
    → length tests ≡ 1
unfolding new_worker_pool
one_test n v tests h k = ground arith

module _ (Outcome : SourceFile → TestRun → Type 0) where
  -- A good run is not one of a test that was not started.
  Ended-good :
      {f : SourceFile} {c : Bool} {run : TestRun}
      → Ended Outcome f c run
      → IsGood run.status
      → Outcome f run
  Ended-good (Ended.ran run o) g = o
  Ended-good (Ended.skipped d r q) g = elim g [ ]

  Batch-none :
      {tests : List SourceFile} {c : Bool} {runs : List TestRun}
      → Batch Outcome tests c runs
      → length tests ≡ 0
      → RunEach Outcome tests (map some runs)
  Batch-none (Batch.done c) e = refl
  Batch-none (Batch.stop f run rest o q) e = absurd (omega (arith, e))
  Batch-none (Batch.more f run o b) e = absurd (omega (arith, e))

  -- A batch of one test runs it.
  Batch-one :
      {tests : List SourceFile} {c : Bool} {runs : List TestRun}
      → Batch Outcome tests c runs
      → length tests ≡ 1
      → RunEach Outcome tests (map some runs)
  Batch-one (Batch.done c) e = refl
  Batch-one (Batch.stop f run rest o q) e =
      ((run, refl, o), no_tests_RunEach Outcome rest [] (omega (arith, e)) refl)
  Batch-one (Batch.more f run o b) e = ((run, refl, o), Batch-none b (omega (arith, e)))

  -- In parallel, runs that are all good are one for each test, whether or not the context is done.
  ExecuteParallel-good :
      (n : ℕ) (v : Bool) (tests : List SourceFile) (c : Bool) (rs : List TestRun)
      → is_parallel n ≡ true
      → ExecuteParallel Outcome (new_worker_pool n v) tests c (map some rs)
      → AllGood rs
      → RunEach Outcome tests (map some rs)
  ExecuteParallel-good n v tests c rs par (ExecuteParallel.no_tests e q) g =
      no_tests_RunEach Outcome tests (map some rs) e q
  ExecuteParallel-good n v tests c rs par (ExecuteParallel.one_by_one batch a b d q) g =
      subst (RunEach Outcome tests) (sym q) (Batch-one d (one_test n v tests par b))
  ExecuteParallel-good n v tests c rs par (ExecuteParallel.concurrent c0 k s a b r p live q) g =
      let (size, all) = pool_fills Outcome _ k tests c0 s (new_worker_pool_pos n v) r p in
      subst (RunEach Outcome tests) (sym q) (
        RunEach-of Outcome tests s.runs size (λ i f e.
          let (run, found, end) = all i (get_elem?-lt tests i e) in
          let (g', e', d) = end in
          let same : g' ≡ f = let x = sym e' ∙ e in cc in
          let good : IsGood run.status = IsGood-at rs i run g (ap (λ x. get_elem? x i) q ∙ found) in
          (run, found, subst (λ h. Outcome h run) same (Ended-good d good))))

module _ {F O P W : Type 0} (env : Env F O P W) (config : Config F) (search_path : Bytes)
    (Outcome : Bool
      → List (Bytes × Bytes)
      → List InstrumentedSql
      → SourceFile
      → TestRun
      → Type 0) where
  -- Each test has its run, in their order; or the tests ran one by one until the context was done.
  abbrev pub AllRan : Bool → List (Bytes × Bytes) → Prepared → List TestRun → Type 0
  AllRan c scripts p runs =
      RunEach (Outcome (is_explicit env config search_path) scripts p.sources) p.tests
        (map some runs)
      ⊎ ((is_parallel config.parallelism ≡ false)
          × (c ≡ true)
          × Batch (Outcome (is_explicit env config search_path) scripts p.sources) p.tests c runs)

  -- No test was found and nothing was touched; or the coverage that the good runs signal was saved, and
  -- the threshold is met.
  pub data Zero (c : Bool) (s s' : Session P W) : Type 0 where
    nothing_to_run : prepare env config search_path ≡ ok none → s' ≡ s → Zero c s s'
    good :
        (p : Prepared) (scripts : List (Bytes × Bytes)) (runs : List TestRun) (cov : Coverage)
        (w w' : W)
        → prepare env config search_path ≡ ok (some p)
        → setup_scripts env config search_path ≡ ok scripts
        → AllGood runs
        → AllRan c scripts p runs
        → collected env config search_path p.sources runs ≡ (cov, none)
        → save env.storage config.coverage_file (saved_coverage env config search_path cov) w
          ≡ (none, w')
        → Meets
            (env.threshold config.fail_under)
            (has_executable_positions cov)
            (env.below (executable_position_counts cov) config.fail_under)
        → Zero c s s'

  -- What an exit with 0 says of the part behind the runs.
  record Concluded (sources : List InstrumentedSql) (runs : List TestRun) (w : W) : Type 0 where
    cov : Coverage
    w' : W
    all_good : AllGood runs
    counted : collected env config search_path sources runs ≡ (cov, none)
    stored :
        save env.storage config.coverage_file (saved_coverage env config search_path cov) w
        ≡ (none, w')
    met :
        Meets
          (env.threshold config.fail_under)
          (has_executable_positions cov)
          (env.below (executable_position_counts cov) config.fail_under)

  after_save-zero :
      (sources : List InstrumentedSql) (runs : List TestRun) (cov : Coverage) (w : W)
      (r : Option StoreError × W) (w' : W)
      → collected env config search_path sources runs ≡ (cov, none)
      → save env.storage config.coverage_file (saved_coverage env config search_path cov) w ≡ r
      → after_save env config search_path runs cov r ≡ (Ending.exited 0, w')
      → Concluded sources runs w
  after_save-zero sources runs cov w (some e, w1) w' c q h = cc
  after_save-zero sources runs cov w (none, w1) w' c q h =
      let zero_code : code env config search_path runs cov ≡ 0 = cc in
      let (g, m) =
        (run_exit_code_lem runs (env.threshold config.fail_under) (has_executable_positions cov)
            (env.below (executable_position_counts cov) config.fail_under)).0
          zero_code in
      record { cov = cov; w' = w1; all_good = g; counted = c; stored = q; met = m }

  after_collect-zero :
      (sources : List InstrumentedSql) (runs : List TestRun) (w w' : W)
      (r : Coverage × Option (Bytes × SignalError))
      → collected env config search_path sources runs ≡ r
      → after_collect env config search_path runs r w ≡ (Ending.exited 0, w')
      → Concluded sources runs w
  after_collect-zero sources runs w w' (cov, some e) q h = cc
  after_collect-zero sources runs w w' (cov, none) q h =
      after_save-zero sources runs cov w _ w' q refl h

  conclude-zero :
      (sources : List InstrumentedSql) (runs : Option (List TestRun)) (w w' : W)
      → conclude env config search_path sources runs w ≡ (Ending.exited 0, w')
      → (rs : List TestRun) × (runs ≡ some rs) × Concluded sources rs w
  conclude-zero sources none w w' h = cc
  conclude-zero sources (some rs) w w' h = (rs, refl, after_collect-zero sources rs w w' _ refl h)

  map-some_inj :
      (xs ys : List TestRun) → ◌≡◌ {A = List (Option TestRun)} (map some xs) (map some ys) → xs ≡ ys
  map-some_inj [] [] h = refl
  map-some_inj [] (y ∷ ys) h = cc
  map-some_inj (x ∷ xs) [] h = cc
  map-some_inj (x ∷ xs) (y ∷ ys) h = let rest : xs ≡ ys = map-some_inj xs ys (cc) in cc

  ran_all :
      (scripts : List (Bytes × Bytes)) (p : Prepared) (c : Bool) (runs : List (Option TestRun))
      (rs : List TestRun)
      → Executed env config search_path Outcome scripts p c runs
      → runs ≡ map some rs
      → AllGood rs
      → AllRan c scripts p rs
  ran_all scripts p c runs rs (Executed.in_parallel e x) q g =
      inl (ExecuteParallel-good _ _ _ _ c rs e (subst (ExecuteParallel _ _ _ c) q x) g)
  ran_all scripts p true runs rs (Executed.in_order batch e b k) q g =
      inr (e, refl, subst (Batch _ p.tests true) (map-some_inj batch rs (sym k ∙ q)) b)
  ran_all scripts p false runs rs (Executed.in_order batch e b k) q g =
      inl (subst (RunEach _ p.tests) (sym k ∙ q) (Batch-RunEach _ b refl))

  -- Where Run exits with 0, no test was found and nothing was touched, or no run failed or timed out, the
  -- coverage that the runs signal was saved and the threshold is met. Then each test has its run, in
  -- the order of the tests, unless they ran one by one and the context was done.
  pub Run-Zero :
      {c : Bool} {s s' : Session P W} {end : Ending}
      → Run env config search_path Outcome c s end s'
      → end ≡ Ending.exited 0
      → Zero c s s'
  Run-Zero (Run.not_prepared e h) z = cc
  Run-Zero (Run.no_tests h) z = Zero.nothing_to_run h refl
  Run-Zero (Run.not_connected p e s1 h k) z = cc
  Run-Zero (Run.no_setup p pool e s1 h k q) z = cc
  Run-Zero {c} (Run.ran p pool scripts runs acts s1 w w' end h k q x f) z =
      let (rs, here, done) =
        conclude-zero p.sources (present runs) w w' (f ∙ ap (λ n. (n, w')) z) in
      Zero.good p scripts rs done.cov w done.w' h q done.all_good
        (ran_all scripts p c runs rs x (present-some runs rs here) done.all_good) done.counted
        done.stored done.met
