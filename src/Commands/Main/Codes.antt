-- ===== src/Commands/Main/Codes.antt =====
-- What the exit code of `pgcov run` says.
use pgcov.Base.{
  ℕ, ◌≤◌, Bool, false, Option, none, some, List, Bytes, map, All, ◌≡◌, refl, ap, subst, arith, ◌⊎◌,
  inl, inr, ok,
}
use pgcov.Config.{Config, ConfigError, RunFlags, FloatTests, validate}
use pgcov.Coverage.{Coverage}
use pgcov.Coverage.Store.{StoreError}
use pgcov.Signal.{SignalError}
use pgcov.Instrument.Files.{SourceFile, InstrumentedSql}
use pgcov.Runner.{TestRun, TestSummary, run_exit_code}
use pgcov.Runner.Exit.{IsGood}
use pgcov.Runner.Pool.Complete.{RunEach}
use pgcov.Database.{Session}
use pgcov.Commands.Run.{
  Env, Prepared, Ending, Run, is_explicit, prepare, setup_scripts, after_save, after_collect,
  conclude, present,
}
use pgcov.Commands.Run.Exit.{Zero, AllRan, Run-Zero}
use pgcov.Commands.Run.Total.{Run-no_panic}
use pgcov.Commands.Main.{search_path_of, config_of, RunCommand}

run_exit_code-le : (s : TestSummary) (a b c : Bool) → run_exit_code s a b c ≤ 1
unfolding run_exit_code
run_exit_code-le s a b c = ground arith

module _ {F O P W : Type 0} (env : Env F O P W) (config : Config F) (search_path : Bytes) where
  -- An exit code is 0 or 1.
  abbrev AtMostOne : Ending → Type 0
  AtMostOne (Ending.exited n) = n ≤ 1
  AtMostOne (Ending.failed e) = Unit
  AtMostOne Ending.panicked = Unit

  after_save-AtMostOne :
      (runs : List TestRun) (cov : Coverage) (r : Option StoreError × W)
      → AtMostOne (after_save env config search_path runs cov r).0
  after_save-AtMostOne runs cov (some e, w) = tt
  after_save-AtMostOne runs cov (none, w) = run_exit_code-le _ _ _ _

  after_collect-AtMostOne :
      (runs : List TestRun) (r : Coverage × Option (Bytes × SignalError)) (w : W)
      → AtMostOne (after_collect env config search_path runs r w).0
  after_collect-AtMostOne runs (cov, some e) w = tt
  after_collect-AtMostOne runs (cov, none) w = after_save-AtMostOne runs cov _

  conclude-AtMostOne :
      (sources : List InstrumentedSql) (runs : Option (List TestRun)) (w : W)
      → AtMostOne (conclude env config search_path sources runs w).0
  conclude-AtMostOne sources none w = tt
  conclude-AtMostOne sources (some runs) w = after_collect-AtMostOne runs _ w

  module _
      (Outcome : Bool
        → List (Bytes × Bytes)
        → List InstrumentedSql
        → SourceFile
        → TestRun
        → Type 0) where
    Run-AtMostOne :
        {c : Bool} {s s' : Session P W} {end : Ending}
        → Run env config search_path Outcome c s end s'
        → AtMostOne end
    Run-AtMostOne (Run.not_prepared e h) = tt
    Run-AtMostOne (Run.no_tests h) = omega arith
    Run-AtMostOne (Run.not_connected p e s1 h k) = tt
    Run-AtMostOne (Run.no_setup p pool e s1 h k q) = tt
    Run-AtMostOne (Run.ran p pool scripts runs acts s1 w w' end h k q x f) =
        subst AtMostOne (ap (λ r. r.0) f) (conclude-AtMostOne p.sources (present runs) w)

module _ {F O P W : Type 0} (env : Env F O P W) (tests : FloatTests F) (no_threshold : F)
    (Outcome : Bool → List (Bytes × Bytes) → List InstrumentedSql → SourceFile → TestRun → Type 0)
    (is_set : Bytes → Bool) (flags : RunFlags F) (first : Bytes) where
  abbrev pub flagged : Config F
  flagged = config_of no_threshold is_set flags

  abbrev pub Command : Session P W → ℕ → Session P W → Type 0
  Command = RunCommand env tests no_threshold Outcome is_set flags first

  -- The command exits with 2, and has touched nothing, where Validate rejects the configuration, and
  -- with 0 or 1 where Validate accepts it.
  pub RunCommand_codes :
      {s s' : Session P W} {n : ℕ}
      → Command s n s'
      → ((e : ConfigError) × (validate tests flagged ≡ some e) × (n ≡ 2) × (s' ≡ s))
        ⊎ ((validate tests flagged ≡ none) × (n ≤ 1))
  RunCommand_codes (RunCommand.invalid e h) = inl (e, h, refl, refl)
  RunCommand_codes (RunCommand.exited n s' v r) = inr (v, Run-AtMostOne env _ _ Outcome r)
  RunCommand_codes (RunCommand.failed e s' v r) = inr (v, omega arith)
  RunCommand_codes (RunCommand.panicked s' v r) = absurd (Run-no_panic env _ _ Outcome r refl)

  -- No test was found, or each test has its run, in their order, and none failed or timed out.
  pub data AllPassed : Type 0 where
    nothing_to_run : prepare env flagged (search_path_of first) ≡ ok none → AllPassed
    each_passed :
        (p : Prepared) (scripts : List (Bytes × Bytes)) (runs : List TestRun)
        → prepare env flagged (search_path_of first) ≡ ok (some p)
        → setup_scripts env flagged (search_path_of first) ≡ ok scripts
        → RunEach
            (Outcome (is_explicit env flagged (search_path_of first)) scripts p.sources)
            p.tests
            (map some runs)
        → All (λ r. IsGood r.status) runs
        → AllPassed

  ran_all :
      (scripts : List (Bytes × Bytes)) (p : Prepared) (runs : List TestRun)
      → AllRan env flagged (search_path_of first) Outcome false scripts p runs
      → RunEach
          (Outcome (is_explicit env flagged (search_path_of first)) scripts p.sources)
          p.tests
          (map some runs)
  ran_all scripts p runs (inl r) = r
  ran_all scripts p runs (inr (a, e, b)) = cc

  Zero-AllPassed :
      {c : Bool} {s s' : Session P W}
      → Zero env flagged (search_path_of first) Outcome c s s'
      → c ≡ false
      → AllPassed
  Zero-AllPassed (Zero.nothing_to_run h e) q = AllPassed.nothing_to_run h
  Zero-AllPassed (Zero.good p scripts runs cov w w' h k g r d st m) q =
      AllPassed.each_passed p scripts runs h k
        (ran_all scripts p runs
          (subst (λ b. AllRan env flagged (search_path_of first) Outcome b scripts p runs) q r))
        g

  -- Where the command exits with 0, its configuration was accepted, and no test was found or each test
  -- was run and none failed or timed out.
  pub RunCommand-zero :
      {s s' : Session P W} {n : ℕ}
      → Command s n s'
      → n ≡ 0
      → (validate tests flagged ≡ none) × AllPassed
  RunCommand-zero (RunCommand.invalid e h) z = absurd (omega (arith, z))
  RunCommand-zero (RunCommand.exited n s' v r) z = (
    v,
    Zero-AllPassed (Run-Zero env flagged (search_path_of first) Outcome r (ap Ending.exited z))
        refl,
  )
  RunCommand-zero (RunCommand.failed e s' v r) z = absurd (omega (arith, z))
  RunCommand-zero (RunCommand.panicked s' v r) z = absurd (omega (arith, z))
