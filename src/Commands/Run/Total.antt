-- ===== src/Commands/Run/Total.antt =====
-- That `Run` returns, and never dereferences a nil run.
use pgcov.Base.{
  ℕ, suc, ◌<◌, Bool, true, false, ◌||◌, ◌==◌, Option, none, some, List, [], ◌∷◌, Bytes, length, map,
  get_elem?, Result, ok, err, ◌≡◌, ◌≢◌, refl, sym, ap, ◌∙◌, arith, Bool-cases, inl, inr,
}
use pgcov.Config.{Config}
use pgcov.Instrument.Files.{SourceFile, InstrumentedSql}
use pgcov.Signal.{SignalError}
use pgcov.Coverage.{Coverage}
use pgcov.Coverage.Store.{StoreError}
use pgcov.Database.{Session, ConnectionError, new_pool}
use pgcov.Runner.{TestRun}
use pgcov.Runner.Pool.{WorkerPool, new_worker_pool, Batch, ExecuteParallel, Steps}
use pgcov.Runner.Pool.Complete.{pool_fills, new_worker_pool_pos}
use pgcov.Runner.Pool.Progress.{pool_returns}
use pgcov.Commands.Run.{
  Env, Prepared, Ending, RunError, is_parallel, is_explicit, present, prepare, setup_scripts,
  conclude, after_collect, after_save, collected, Executed, Run,
}

-- Where there is a run at every index, all are present.
present_all :
    (runs : List (Option TestRun))
    → ((i : ℕ) → i < length runs → (run : TestRun) × (get_elem? runs i ≡ some (some run)))
    → (rs : List TestRun) × (present runs ≡ some rs)
present_all [] h = ([], refl)
present_all (none ∷ runs) h = let (run, e) = h 0 (omega arith) in absurd (cc e)
present_all (some run ∷ runs) h =
    let (rs, e) = present_all runs (λ i lt. h (suc i) (omega arith)) in (run ∷ rs, rw e refl)

present-map : (rs : List TestRun) → present (map some rs) ≡ some rs
present-map [] = refl
present-map (r ∷ rs) = rw (present-map rs) refl

module _ (Outcome : SourceFile → TestRun → Type 0) where
  ExecuteParallel-present :
      (n : ℕ) (v : Bool) (tests : List SourceFile) (c : Bool) (runs : List (Option TestRun))
      → ExecuteParallel Outcome (new_worker_pool n v) tests c runs
      → (rs : List TestRun) × (present runs ≡ some rs)
  ExecuteParallel-present n v tests c runs (ExecuteParallel.no_tests e q) = ([], rw q refl)
  ExecuteParallel-present n v tests c runs (ExecuteParallel.one_by_one batch a b d q) =
      (batch, rw q (present-map batch))
  ExecuteParallel-present n v tests c runs (ExecuteParallel.concurrent c0 k s a b r p live q) =
      let (size, all) = pool_fills Outcome _ k tests c0 s (new_worker_pool_pos n v) r p in
      rw q (present_all s.runs (λ i lt. let (run, e, _) = all i (omega (arith, size)) in (run, e)))

  module _ (returns : (f : SourceFile) → (run : TestRun) × Outcome f run) where
    Batch-exists :
        (tests : List SourceFile) → (runs : List TestRun) × Batch Outcome tests false runs
    Batch-exists [] = ([], Batch.done false)
    Batch-exists (f ∷ tests) =
        let (run, o) = returns f in
        let (runs, b) = Batch-exists tests in (run ∷ runs, Batch.more f run o b)

    ExecuteParallel-exists :
        (wp : WorkerPool) (tests : List SourceFile)
        → (c : Bool) × (runs : List (Option TestRun)) × ExecuteParallel Outcome wp tests c runs
    ExecuteParallel-exists wp tests = elim (Bool-cases (length tests == 0)) [
      | inl e ↦ (false, [], ExecuteParallel.no_tests (ground (arith, e)) refl)
      | inr e ↦ elim (Bool-cases (wp.max_workers == 1 || length tests == 1)) [
        | inl one ↦
            let (batch, b) = Batch-exists tests in
            (false, map some batch, ExecuteParallel.one_by_one batch e one b refl)
        | inr many ↦
            let (k, t, steps, back) =
              pool_returns Outcome returns wp.max_workers 0 tests false _ (ground (arith, e))
                Steps.here in
            (t.cancelled, t.runs, ExecuteParallel.concurrent false k t e many steps back refl refl)
      ]
    ]

module _ {F O P W : Type 0} (env : Env F O P W) (config : Config F) (search_path : Bytes)
    (Outcome : Bool
      → List (Bytes × Bytes)
      → List InstrumentedSql
      → SourceFile
      → TestRun
      → Type 0) where
  Executed-present :
      (scripts : List (Bytes × Bytes)) (p : Prepared) (c : Bool) (runs : List (Option TestRun))
      → Executed env config search_path Outcome scripts p c runs
      → (rs : List TestRun) × (present runs ≡ some rs)
  Executed-present scripts p c runs (Executed.in_parallel e x) =
      ExecuteParallel-present _ _ _ _ c runs x
  Executed-present scripts p c runs (Executed.in_order batch e b q) =
      (batch, rw q (present-map batch))

  after_save-ne-panicked :
      (runs : List TestRun) (cov : Coverage) (r : Option StoreError × W) (w' : W)
      → after_save env config search_path runs cov r ≢ (Ending.panicked, w')
  after_save-ne-panicked runs cov (some e, w) w' h = cc
  after_save-ne-panicked runs cov (none, w) w' h = cc

  conclude-ne-panicked :
      (sources : List InstrumentedSql) (rs : List TestRun)
      (r : Coverage × Option (Bytes × SignalError)) (w w' : W)
      → after_collect env config search_path rs r w ≢ (Ending.panicked, w')
  conclude-ne-panicked sources rs (cov, some e) w w' h = cc
  conclude-ne-panicked sources rs (cov, none) w w' h = after_save-ne-panicked rs cov _ w' h

  pub Run-no_panic :
      {c : Bool} {s s' : Session P W} {end : Ending}
      → Run env config search_path Outcome c s end s'
      → end ≢ Ending.panicked
  Run-no_panic (Run.not_prepared e h) z = cc
  Run-no_panic (Run.no_tests h) z = cc
  Run-no_panic (Run.not_connected p e s1 h k) z = cc
  Run-no_panic (Run.no_setup p pool e s1 h k q) z = cc
  Run-no_panic {c} (Run.ran p pool scripts runs acts s1 w w' end h k q x f) z =
      let (rs, here) = Executed-present scripts p c runs x in
      conclude-ne-panicked p.sources rs (collected env config search_path p.sources rs) w w' (
        ap (λ r. conclude env config search_path p.sources r w) (sym here)
        ∙ f
        ∙ ap (λ n. (n, w')) z)

  module _
      (returns : (b : Bool) (scripts : List (Bytes × Bytes)) (sources : List InstrumentedSql)
          (f : SourceFile)
        → (run : TestRun) × Outcome b scripts sources f run) where
    Executed-exists :
        (scripts : List (Bytes × Bytes)) (p : Prepared)
        → (c : Bool) × (runs : List (Option TestRun)) × Executed env config search_path Outcome
            scripts p c runs
    Executed-exists scripts p =
        let b = is_explicit env config search_path in
        elim (Bool-cases (is_parallel config.parallelism)) [
          | inl e ↦
              let (c, runs, x) =
                ExecuteParallel-exists (Outcome b scripts p.sources) (returns b scripts p.sources)
                  (new_worker_pool config.parallelism config.verbose) p.tests in
              (c, runs, Executed.in_parallel e x)
          | inr e ↦
              let (batch, x) =
                Batch-exists (Outcome b scripts p.sources) (returns b scripts p.sources) p.tests in
              (false, map some batch, Executed.in_order batch e x refl)
        ]

    -- The way in which a run from `s` may end.
    abbrev Returns : Session P W → Type 0
    Returns s =
        (c : Bool) × (end : Ending) × (s' : Session P W) × Run env config search_path Outcome c s
          end s'

    safely :
        (s : Session P W) {c : Bool} {end : Ending} {s' : Session P W}
        → Run env config search_path Outcome c s end s'
        → Returns s
    safely s {c} {end} {s'} r = (c, end, s', r)

    with_scripts :
        (s s1 : Session P W) (p : Prepared) (pool : P) (r : Result RunError (List (Bytes × Bytes)))
        → prepare env config search_path ≡ ok (some p)
        → new_pool env.driver config s ≡ (ok pool, s1)
        → setup_scripts env config search_path ≡ r
        → Returns s
    with_scripts s s1 p pool (err e) h k q = safely s {c = true} (Run.no_setup p pool e s1 h k q)
    with_scripts s s1 p pool (ok scripts) h k q =
        let (c, runs, x) = Executed-exists scripts p in
        safely s (
          Run.ran p pool scripts runs [] s1 s1.world
            (conclude env config search_path p.sources (present runs) s1.world).1
            (conclude env config search_path p.sources (present runs) s1.world).0 h k q x refl)

    with_new_pool :
        (s : Session P W) (p : Prepared) (r : Result ConnectionError P × Session P W)
        → prepare env config search_path ≡ ok (some p)
        → new_pool env.driver config s ≡ r
        → Returns s
    with_new_pool s p (err e, s1) h k = safely s {c = true} (Run.not_connected p e s1 h k)
    with_new_pool s p (ok pool, s1) h k = with_scripts s s1 p pool _ h k refl

    prepared :
        (s : Session P W) (r : Result RunError (Option Prepared))
        → prepare env config search_path ≡ r
        → Returns s
    prepared s (err e) h = safely s {c = true} (Run.not_prepared e h)
    prepared s (ok none) h = safely s {c = true} (Run.no_tests h)
    prepared s (ok (some p)) h = with_new_pool s p _ h refl

    -- Where `Execute` returns for every test, Run can return from every state, and it never does so by
    -- dereferencing a nil run.
    pub Run-returns :
        (s : Session P W)
        → ((c : Bool) × (end : Ending) × (s' : Session P W) × Run env config search_path Outcome c s
              end s')
          × ((c : Bool) (end : Ending) (s' : Session P W)
              → Run env config search_path Outcome c s end s'
              → end ≢ Ending.panicked)
    Run-returns s = (prepared s (prepare env config search_path) refl, λ c end s' r. Run-no_panic r)
