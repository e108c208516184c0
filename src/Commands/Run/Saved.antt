-- ===== src/Commands/Run/Saved.antt =====
-- What the coverage file holds once `Run` has returned an exit code.
use pgcov.Base.{
  ℕ, Bool, Option, none, some, List, ◌++◌, Bytes, Result, ok, err, ◌≡◌, refl, sym, ap, ◌∙◌, subst,
}
use pgcov.Config.{Config}
use pgcov.Instrument.Files.{SourceFile, InstrumentedSql}
use pgcov.Coverage.{
  Coverage, hits, new_coverage, clone, schema_version, add_position, add_implicit_position,
}
use pgcov.Coverage.Texts.{IsText}
use pgcov.Coverage.Clone.{hits-clone_positions}
use pgcov.Coverage.Store.{StoreError, load}
use pgcov.Collector.Preserve.{ClosedUnderWrites, initialize-keeps, runs-keeps}
use pgcov.Collector.Invariant.{IsSound, writes-IsSound}
use pgcov.Signal.{SignalError}
use pgcov.Database.{Action, Session, closing}
use pgcov.Runner.{TestRun}
use pgcov.Commands.Combine.Sums.{SameData, StorageLaws, Written, save-Written, load-save}
use pgcov.Commands.Run.{
  Env, Prepared, Ending, present, prepare, setup_scripts, collected, with_root, saved_coverage,
  after_save, after_collect, conclude, Executed, Run,
}

-- The version is that of new coverage, and both maps are as Go maps are.
abbrev IsFresh : Coverage → Type 0
IsFresh c = (c.version ≡ schema_version) × IsSound c

writes-IsFresh : ClosedUnderWrites IsFresh
unfolding add_position add_implicit_position
writes-IsFresh = record {
  executable = λ c f s l n h. (h.0, writes-IsSound.executable c f s l n h.1);
  implicit = λ c f s l n h. (h.0, writes-IsSound.implicit c f s l n h.1);
}

new_coverage-IsFresh : (now : ℕ) → IsFresh (new_coverage now)
unfolding new_coverage
new_coverage-IsFresh now = (
  refl,
  record {
    executable = record { files = tt; inner = tt };
    implicit = record { files = tt; inner = tt };
  },
)

module _ {F O P W : Type 0} (env : Env F O P W) (config : Config F) (search_path : Bytes) where
  collected-IsFresh :
      (sources : List InstrumentedSql) (runs : List TestRun)
      → IsFresh (collected env config search_path sources runs).0
  unfolding collected
  collected-IsFresh sources runs =
      runs-keeps IsFresh writes-IsFresh _ _
        (initialize-keeps IsFresh writes-IsFresh _ _ (new_coverage-IsFresh env.now))

  -- The coverage has the counts that were collected, the supported version, and the absolute search
  -- path as its root, if there is one.
  pub record HasCollected (c d : Coverage) : Type 0 where
    pub supported : d.version ≡ schema_version
    pub rooted : (root : Bytes) → env.files.abs search_path ≡ ok root → d.root ≡ root
    pub executable : (f k : Bytes) → hits d.positions f k ≡ hits c.positions f k
    pub implicit : (f k : Bytes) → hits d.implicit_positions f k ≡ hits c.implicit_positions f k

  with_root-HasCollected :
      (r : Result Bytes Bytes) (c : Coverage)
      → env.files.abs search_path ≡ r
      → IsFresh c
      → HasCollected c (with_root env config search_path r (clone c))
  unfolding clone
  with_root-HasCollected (err e) c q h = record {
    supported = h.0;
    rooted = λ root k. absurd (let x = sym q ∙ k in cc);
    executable = λ f k. hits-clone_positions c.positions f k h.1.executable;
    implicit = λ f k. hits-clone_positions c.implicit_positions f k h.1.implicit;
  }
  with_root-HasCollected (ok root) c q h = record {
    supported = h.0;
    rooted = λ root' k. let x = sym q ∙ k in cc;
    executable = λ f k. hits-clone_positions c.positions f k h.1.executable;
    implicit = λ f k. hits-clone_positions c.implicit_positions f k h.1.implicit;
  }

  -- The same data.
  HasCollected-SameData : (c d e : Coverage) → HasCollected c d → SameData d e → HasCollected c e
  HasCollected-SameData c d e h same = record {
    supported = same.version ∙ h.supported;
    rooted = λ root k. same.root ∙ h.rooted root k;
    executable = λ f k. same.executable f k ∙ h.executable f k;
    implicit = λ f k. same.implicit f k ∙ h.implicit f k;
  }

  after_save-exited :
      (runs : List TestRun) (cov : Coverage) (r : Option StoreError × W) (n : ℕ) (w' : W)
      → after_save env config search_path runs cov r ≡ (Ending.exited n, w')
      → r ≡ (none, w')
  after_save-exited runs cov (some e, w1) n w' h = cc
  after_save-exited runs cov (none, w1) n w' h = ap (λ x. (none, x)) (ap (λ r. r.1) h)

  -- The coverage file holds what was collected from the runs.
  abbrev pub Holds : List InstrumentedSql → List TestRun → W → Type 0
  Holds sources runs w' =
      (cov : Coverage) × (d : Coverage) × (collected env config search_path sources runs
        ≡ (cov, none))
      × (load env.storage config.coverage_file w' ≡ ok d)
      × HasCollected cov d

  -- Where `Run` returns an exit code from its runs, it has written what Marshal gave for the coverage.
  pub conclude-Written :
      (write_stdout : Bytes → W → Option Bytes × W) (sources : List InstrumentedSql)
      (rs : List TestRun) (n : ℕ) (w w' : W)
      → conclude env config search_path sources (some rs) w ≡ (Ending.exited n, w')
      → Written env.storage write_stdout config.coverage_file
          (saved_coverage env config search_path (collected env config search_path sources rs).0)
          w'
  conclude-Written write_stdout sources rs n w w' h =
      go (collected env config search_path sources rs) h
    where
      go :
          (r : Coverage × Option (Bytes × SignalError))
          → after_collect env config search_path rs r w ≡ (Ending.exited n, w')
          → Written env.storage write_stdout config.coverage_file
              (saved_coverage env config search_path r.0)
              w'
      go (cov, some e) k = cc
      go (cov, none) k =
          save-Written env.storage write_stdout config.coverage_file
            (saved_coverage env config search_path cov) w w' (after_save-exited rs cov _ n w' k)

  module _ (laws : StorageLaws env.storage) (write_stdout : Bytes → W → Option Bytes × W) where
    after_collect-Holds :
        (sources : List InstrumentedSql) (runs : List TestRun)
        (r : Coverage × Option (Bytes × SignalError)) (n : ℕ) (w w' : W)
        → IsText (saved_coverage env config search_path r.0)
        → collected env config search_path sources runs ≡ r
        → after_collect env config search_path runs r w ≡ (Ending.exited n, w')
        → Holds sources runs w'
    after_collect-Holds sources runs (cov, some e) n w w' t q h = cc
    after_collect-Holds sources runs (cov, none) n w w' t q h =
        let fresh : IsFresh cov = subst (λ r. IsFresh r.0) q (collected-IsFresh sources runs) in
        let kept = with_root-HasCollected (env.files.abs search_path) cov refl fresh in
        let (d, l, same) =
          load-save env.storage write_stdout laws config.coverage_file
            (saved_coverage env config search_path cov) w w' kept.supported t
            (after_save-exited runs cov _ n w' h) in
        (cov, d, q, l, HasCollected-SameData cov _ d kept same)

    conclude-Holds :
        (sources : List InstrumentedSql) (runs : Option (List TestRun)) (n : ℕ) (w w' : W)
        → ((rs : List TestRun)
            → runs ≡ some rs
            → IsText (
                saved_coverage env config search_path
                  (collected env config search_path sources rs).0))
        → conclude env config search_path sources runs w ≡ (Ending.exited n, w')
        → (rs : List TestRun) × (runs ≡ some rs) × Holds sources rs w'
    conclude-Holds sources none n w w' t h = cc
    conclude-Holds sources (some rs) n w w' t h =
        (rs, refl, after_collect-Holds sources rs _ n w w' (t rs refl) refl h)

  module _
      (Outcome : Bool
        → List (Bytes × Bytes)
        → List InstrumentedSql
        → SourceFile
        → TestRun
        → Type 0) where
    -- No test was found and nothing was touched; or, when the pool is closed, the coverage file holds
    -- what was collected from the runs of the tests.
    pub data Saved (c : Bool) (s s' : Session P W) : Type 0 where
      nothing_to_run : prepare env config search_path ≡ ok none → s' ≡ s → Saved c s s'
      saved :
          (p : Prepared) (scripts : List (Bytes × Bytes)) (runs : List (Option TestRun))
          (rs : List TestRun) (pool : P) (log : List (Action P)) (w' : W)
          → prepare env config search_path ≡ ok (some p)
          → setup_scripts env config search_path ≡ ok scripts
          → Executed env config search_path Outcome scripts p c runs
          → present runs ≡ some rs
          → Holds p.sources rs w'
          → s' ≡ closing env.driver pool (record { world = w'; log = log })
          → Saved c s s'

    -- Whatever the runs of the tests are, the coverage that `Run` hands to `Save` has all its strings
    -- in UTF-8.
    abbrev pub SavesText : Bool → Type 0
    SavesText c =
        (p : Prepared) (scripts : List (Bytes × Bytes)) (runs : List (Option TestRun))
        (rs : List TestRun) (n : ℕ) (w w' : W)
        → prepare env config search_path ≡ ok (some p)
        → setup_scripts env config search_path ≡ ok scripts
        → Executed env config search_path Outcome scripts p c runs
        → present runs ≡ some rs
        → conclude env config search_path p.sources (some rs) w ≡ (Ending.exited n, w')
        → IsText (
            saved_coverage env config search_path (collected env config search_path p.sources rs).0)

    -- Where the laws of the disk and of encoding/json hold, what is saved has its strings in UTF-8
    -- and Run returns an exit code, whichever it
    -- is: no test was found and nothing was touched; or, when the pool is closed, the coverage file
    -- loads as coverage of the supported version that has at every position of either map the count
    -- that was collected from the runs of the tests, and whose root is the absolute search path, if
    -- that can be determined.
    pub Run-Saved :
        (laws : StorageLaws env.storage) {c : Bool} {s s' : Session P W} {end : Ending} {n : ℕ}
        → SavesText c
        → Run env config search_path Outcome c s end s'
        → end ≡ Ending.exited n
        → Saved c s s'
    Run-Saved laws t (Run.not_prepared e h) z = cc
    Run-Saved laws t (Run.no_tests h) z = Saved.nothing_to_run h refl
    Run-Saved laws t (Run.not_connected p e s1 h k) z = cc
    Run-Saved laws t (Run.no_setup p pool e s1 h k q) z = cc
    Run-Saved laws {n = n} t (Run.ran p pool scripts runs acts s1 w w' end h k q x f) z =
        let (rs, here, holds) =
          conclude-Holds laws (λ t v. (none, v)) p.sources (present runs) n w w'
            (λ rs here. t p scripts runs rs n w w' h q x here (
              subst (λ o. conclude env config search_path p.sources o w ≡ (Ending.exited n, w'))
                here (f ∙ ap (λ m. (m, w')) z)))
            (f ∙ ap (λ m. (m, w')) z) in
        Saved.saved p scripts runs rs pool (acts ++ s1.log) w' h q x here holds refl
