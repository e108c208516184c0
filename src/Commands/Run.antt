-- ===== src/Commands/Run.antt =====
-- `Run` of internal/cli/run.go: how the parts are called, from the discovery of the tests to the exit
-- code. What it prints is left out.
pub mod Exit
pub mod Total
pub mod Saved
use pgcov.Base.{
  ℕ, Bool, true, false, ◌&&◌, not, Option, none, some, List, [], ◌∷◌, ◌++◌, ltb, if◌then◌else◌,
  Bytes, bytes_eq, map, ◌≡◌, Result, ok, err, ◌>>=◌,
}
use pgcov.Decimal.{half}
use pgcov.Point.{CoveragePoint}
use pgcov.Lexer.{Lexer}
use pgcov.Config.{Config}
use pgcov.Discovery.{
  DiscoveredFile, Files, DiscoverError, discover_tests, discover_co_located_sources,
}
use pgcov.Instrument.Files.{
  SourceFile, ParsedSql, InstrumentedSql, Failure, generate_coverage_instruments,
}
use pgcov.Parser.Source.{parse}
use pgcov.Database.{PoolConfig, Driver, Action, Session, ConnectionError, new_pool, closing}
use pgcov.Coverage.{
  Coverage, new_coverage, clone, executable_position_counts, has_executable_positions,
}
use pgcov.Coverage.Store.{Storage, StoreError, save}
use pgcov.Signal.{SignalError}
use pgcov.Collector.{initialize_from_instrumented, collect_from_runs}
use pgcov.Runner.{TestRun, summarize_runs, run_exit_code}
use pgcov.Runner.Pool.{new_worker_pool, Batch, ExecuteParallel}
use pgcov.Commands.Patterns.{
  PatternError, generate_coverage_channel, load_setup_scripts, explicit_sources,
}

-- What `Run` uses of the machine. `random` is what `rand.Read` gives, `threshold` is `FailUnder > 0`,
-- and `below` is `coveragePercent < FailUnder` for the counts behind the percentage.
pub record Env (F O P W : Type 0) : Type 0 where
  pub lexer : Lexer
  pub files : Files
  pub glob : Bytes → Result Bytes (List Bytes)
  pub mod_time : Bytes → ℕ
  pub read_file : Bytes → Result Bytes Bytes
  pub random : Result Bytes Bytes
  pub driver : Driver O P W
  pub storage : Storage W
  pub now : ℕ
  pub threshold : F → Bool
  pub below : ℕ × ℕ → F → Bool

-- The errors of `Run`, with each of which the exit code is 1.
pub data RunError : Type 0 where
  no_channel : Bytes → RunError
  cannot_discover : DiscoverError → RunError
  cannot_list_sources cannot_load_setup : PatternError → RunError
  cannot_parse : Bytes → Bytes → RunError
  cannot_instrument : Failure → RunError
  cannot_connect : ConnectionError → RunError
  cannot_collect : Bytes × SignalError → RunError
  cannot_save : StoreError → RunError

-- The tests and the instrumented sources.
pub record Prepared : Type 0 where
  pub tests : List SourceFile
  pub sources : List InstrumentedSql

abbrev pub file_of : DiscoveredFile → SourceFile
file_of f = record { path = f.path; relative_path = f.relative_path }

abbrev pub wrap {ℓ} : {E : Type 0} {A : Type ℓ} → (E → RunError) → Result E A → Result RunError A
wrap c (err e) = err (c e)
wrap c (ok a) = ok a

-- The runs of which none is nil.
abbrev pub present : List (Option TestRun) → Option (List TestRun)
present [] = some []
present (none ∷ runs) = none
present (some run ∷ runs) = elim (present runs) as (λ _. Option (List TestRun)) [
  | none ↦ none
  | some rs ↦ some (run ∷ rs)
]

-- `config.Parallelism > 1`
abbrev pub is_parallel : ℕ → Bool
is_parallel parallelism = ltb 1 parallelism && ltb parallelism half

abbrev pub locations_of : List InstrumentedSql → List (List CoveragePoint)
locations_of sources = map (λ s. s.locations) sources

abbrev pub signals_of_runs : List TestRun → List (List Bytes)
signals_of_runs runs = map (λ r. r.coverage_sigs) runs

-- How `Run` ends: with an exit code and no error, with an error, or with a nil dereference.
pub data Ending : Type 0 where
  exited : ℕ → Ending
  failed : RunError → Ending
  panicked : Ending

module _ {F O P W : Type 0} (env : Env F O P W) (config : Config F) (search_path : Bytes) where
  -- A channel is generated where the configuration names none.
  abbrev pub channel : Result RunError Bytes
  channel =
      if bytes_eq config.coverage_channel []
      then wrap RunError.no_channel (generate_coverage_channel env.random)
      else ok config.coverage_channel

  abbrev pub is_explicit : Bool
  is_explicit = elim config.source_files as (λ _. Bool) [ [] ↦ false | p ∷ ps ↦ true ]

  abbrev find_sources : List DiscoveredFile → Result RunError (List DiscoveredFile)
  find_sources tests =
      if is_explicit
      then wrap RunError.cannot_list_sources (
          explicit_sources env.files env.glob env.mod_time env.read_file search_path
            config.source_files)
      else wrap RunError.cannot_discover (discover_co_located_sources env.files search_path tests)

  -- The loop that parses the sources and stops at the first one that cannot be read.
  parse_sources : List DiscoveredFile → Result RunError (List (Option ParsedSql))
  unfolding parse
  parse_sources [] = ok []
  parse_sources (f ∷ files) =
      wrap (RunError.cannot_parse f.relative_path) (parse env.lexer env.read_file (file_of f))
      >>= (λ parsed. parse_sources files >>= (λ rest. ok (some parsed ∷ rest)))

  -- From the tests on, up to the instrumented sources; without tests there is nothing to do. The failure
  -- of instrumenting a nil source, which panics, does not arise: each source was parsed from a file.
  prepare_tests : Bytes → List DiscoveredFile → Result RunError (Option Prepared)
  unfolding parse_sources explicit_sources discover_co_located_sources generate_coverage_instruments
  prepare_tests ch [] = ok none
  prepare_tests ch (test ∷ tests) = find_sources (test ∷ tests) >>= (λ sources.
      parse_sources sources >>= (λ parsed.
        wrap RunError.cannot_instrument (generate_coverage_instruments env.lexer ch parsed)
        >>= (λ instrumented.
            ok (some (record { tests = map file_of (test ∷ tests); sources = instrumented })))))

  unfoldable pub prepare : Result RunError (Option Prepared)
  unfolding prepare_tests generate_coverage_channel bytes_eq discover_tests
  prepare = channel >>= (λ ch.
      wrap RunError.cannot_discover (discover_tests env.files search_path)
      >>= (λ tests. prepare_tests ch tests))

  abbrev pub setup_scripts : Result RunError (List (Bytes × Bytes))
  setup_scripts = elim config.setup_files as (λ _. Result RunError (List (Bytes × Bytes))) [
    | [] ↦ ok []
    | p ∷ ps ↦
        wrap RunError.cannot_load_setup
          (load_setup_scripts env.files env.glob env.mod_time env.read_file config.setup_files)
  ]

  -- The collector after the runs, which had every location seeded first.
  unfoldable pub collected :
      List InstrumentedSql → List TestRun → Coverage × Option (Bytes × SignalError)
  collected sources runs =
      collect_from_runs (initialize_from_instrumented (new_coverage env.now) (locations_of sources))
        (signals_of_runs runs)

  abbrev pub with_root : Result Bytes Bytes → Coverage → Coverage
  with_root (err e) cov = cov
  with_root (ok abs_root) cov = record cov { root = abs_root }

  -- The coverage that is saved.
  abbrev pub saved_coverage : Coverage → Coverage
  saved_coverage c = with_root (env.files.abs search_path) (clone c)

  abbrev pub code : List TestRun → Coverage → ℕ
  code runs c =
      run_exit_code (summarize_runs runs) (env.threshold config.fail_under)
        (has_executable_positions c) (env.below (executable_position_counts c) config.fail_under)

  abbrev pub after_save : List TestRun → Coverage → Option StoreError × W → Ending × W
  after_save runs c (some e, w) = (Ending.failed (RunError.cannot_save e), w)
  after_save runs c (none, w) = (Ending.exited (code runs c), w)

  abbrev pub after_collect : List TestRun → Coverage × Option (Bytes × SignalError) → W → Ending × W
  after_collect runs (c, some e) w = (Ending.failed (RunError.cannot_collect e), w)
  after_collect runs (c, none) w =
      after_save runs c (save env.storage config.coverage_file (saved_coverage c) w)

  -- From the runs on; a nil one is dereferenced when its signals are collected.
  abbrev pub conclude : List InstrumentedSql → Option (List TestRun) → W → Ending × W
  conclude sources none w = (Ending.panicked, w)
  conclude sources (some runs) w = after_collect runs (collected sources runs) w

  -- `Outcome b scripts sources f run`: `Execute` may return this run for the test, with these setup
  -- scripts and sources, all of which it loads if `b`.
  module _
      (Outcome : Bool
        → List (Bytes × Bytes)
        → List InstrumentedSql
        → SourceFile
        → TestRun
        → Type 0) where
    -- The runs of the tests, in parallel or one by one; `c` is whether the context is done.
    pub data Executed (scripts : List (Bytes × Bytes)) (p : Prepared) (c : Bool)
        (runs : List (Option TestRun)) : Type 0 where
      in_parallel :
          is_parallel config.parallelism ≡ true
          → ExecuteParallel
              (Outcome is_explicit scripts p.sources)
              (new_worker_pool config.parallelism config.verbose)
              p.tests
              c
              runs
          → Executed scripts p c runs
      in_order :
          (batch : List TestRun)
          → is_parallel config.parallelism ≡ false
          → Batch (Outcome is_explicit scripts p.sources) p.tests c batch
          → runs ≡ map some batch
          → Executed scripts p c runs

    -- `Run`, with the pool closed by the deferred call; `c` is whether the context is done when the
    -- tests have run. While they run, the world changes as they like, and `acts` is what they do with
    -- the pool.
    pub data Run (c : Bool) (s : Session P W) : Ending → Session P W → Type 0 where
      not_prepared : (e : RunError) → prepare ≡ err e → Run c s (Ending.failed e) s
      no_tests : prepare ≡ ok none → Run c s (Ending.exited 0) s
      not_connected :
          (p : Prepared) (e : ConnectionError) (s1 : Session P W)
          → prepare ≡ ok (some p)
          → new_pool env.driver config s ≡ (err e, s1)
          → Run c s (Ending.failed (RunError.cannot_connect e)) s1
      no_setup :
          (p : Prepared) (pool : P) (e : RunError) (s1 : Session P W)
          → prepare ≡ ok (some p)
          → new_pool env.driver config s ≡ (ok pool, s1)
          → setup_scripts ≡ err e
          → Run c s (Ending.failed e) (closing env.driver pool s1)
      ran :
          (p : Prepared) (pool : P) (scripts : List (Bytes × Bytes)) (runs : List (Option TestRun))
          (acts : List (Action P)) (s1 : Session P W) (w w' : W) (end : Ending)
          → prepare ≡ ok (some p)
          → new_pool env.driver config s ≡ (ok pool, s1)
          → setup_scripts ≡ ok scripts
          → Executed scripts p c runs
          → conclude p.sources (present runs) w ≡ (end, w')
          → Run c s end (closing env.driver pool (record { world = w'; log = acts ++ s1.log }))
