-- ===== src/Runner/Workflow.antt =====
-- `executeTestWorkflow`, `Execute` and `ExecuteBatch` of internal/runner/executor.go. The database,
-- the disk and the clock are a parameter that carries a world along; each step is logged.
pub mod Cleanup
pub mod Order
pub mod Runs
use pgcov.Base.{
  ℕ, zero, suc, ◌+◌, Bool, true, false, ◌&&◌, ◌||◌, Option, none, some, List, [], ◌∷◌, ◌++◌, ◌==◌,
  if◌then◌else◌, Bytes, codes, bytes_eq, map, Result, ok, err,
}
use pgcov.Point.{CoveragePoint}
use pgcov.Runner.{TestStatus, TestRun}
use pgcov.Instrument.Files.{SourceFile, InstrumentedSql}

-- What a step opens and a deferred call closes.
pub data Resource : Type 0 where
  temp_database listening connection : Resource

-- The error that `CollectSignals` returns.
pub data CollectError : Type 0 where
  deadline_exceeded canceled : CollectError
  other_error : Bytes → CollectError

-- The calls of internal/database and of package os that the workflow makes, over a world `W`. Opening
-- the database gives its name.
pub record Server (W : Type 0) : Type 0 where
  pub open_resource : Resource → W → Result Bytes Bytes × W
  pub close_resource : Resource → W → W
  pub exec : Bytes → W → Option Bytes × W
  pub read_file : Bytes → W → Result Bytes Bytes × W
  pub collect_signals : W → (List Bytes × Option CollectError) × W
  pub is_cancelled : W → Bool
  pub is_timed_out : W → Bool
  pub dir : Bytes → Bytes

pub data Action : Type 0 where
  opened : Resource → Action
  closed : Resource → Action
  executed : Bytes → Action

-- Where a run stands. The last action comes first.
pub record Session (W : Type 0) : Type 0 where
  pub world : W
  pub log : List Action
  pub name : Bytes
  pub current : TestStatus
  pub sigs : List Bytes

-- The failures of the workflow, with the error or the path that they wrap.
pub data WorkflowError : Type 0 where
  cannot_open : Resource → Bytes → WorkflowError
  cannot_setup cannot_load : Bytes → Bytes → WorkflowError
  cannot_read : Bytes → WorkflowError
  test_execution_failed : Bytes → WorkflowError
  cannot_collect : Bytes → WorkflowError

abbrev pub Step : Type 0 → Type 0
Step W = Session W → Option WorkflowError × Session W

-- `if err != nil { return err }`
abbrev pub attempt {ℓ} :
    {S : Type ℓ}
    → Option WorkflowError × S
    → (S → Option WorkflowError × S)
    → Option WorkflowError × S
attempt (some e, s) next = (some e, s)
attempt (none, s) next = next s

-- A deferred call.
abbrev pub finally {ℓ} :
    {S : Type ℓ} → Option WorkflowError × S → (S → S) → Option WorkflowError × S
finally (r, s) last = (r, last s)

module _ {W : Type 0} (server : Server W) where
  abbrev note_opened : Resource → Result Bytes Bytes × W → Step W
  note_opened r (ok n, w) s = (
    none,
    record s {
      world = w;
      log = Action.opened r ∷ s.log;
      name = elim r as (λ _. Bytes) [ Resource.temp_database ↦ n | _ ↦ s.name ];
    },
  )
  note_opened r (err e, w) s = (some (WorkflowError.cannot_open r e), record s { world = w })

  unfoldable pub acquire : Resource → Step W
  acquire r s = note_opened r (server.open_resource r s.world) s

  unfoldable pub release : Resource → Session W → Session W
  release r s = record s { world = server.close_resource r s.world; log = Action.closed r ∷ s.log }

  -- Opens, and closes on every way out of the body.
  unfoldable pub bracket : Resource → Step W → Step W
  unfolding acquire release
  bracket r body s = attempt (acquire r s) (λ s'. finally (body s') (release r))

  -- `if err != nil { conn.Release(); return err }`
  abbrev pub or_release :
      Option WorkflowError × Session W → Step W → Option WorkflowError × Session W
  or_release (some e, s) next = (some e, release Resource.connection s)
  or_release (none, s) next = next s

  -- A connection that no deferred call releases: the body does so where it fails, and the end where it
  -- does not.
  unfoldable pub using_connection : Step W → Step W
  unfolding acquire release
  using_connection body s =
      attempt (acquire Resource.connection s)
        (λ s0. attempt (body s0) (λ s1. (none, release Resource.connection s1)))

  abbrev note_executed : (Bytes → WorkflowError) → Bytes → Option Bytes × W → Step W
  note_executed wrap text (none, w) s =
      (none, record s { world = w; log = Action.executed text ∷ s.log })
  note_executed wrap text (some e, w) s =
      (some (wrap e), record s { world = w; log = Action.executed text ∷ s.log })

  unfoldable pub run_sql : (Bytes → WorkflowError) → Bytes → Step W
  run_sql wrap text s = note_executed wrap text (server.exec text s.world) s

  -- The setup scripts, each a name and its SQL.
  unfoldable pub run_scripts : List (Bytes × Bytes) → Step W
  unfolding run_sql release
  run_scripts [] s = (none, s)
  run_scripts ((script, sql) ∷ scripts) s =
      or_release (run_sql (WorkflowError.cannot_setup script) sql s) (λ s'. run_scripts scripts s')

  unfoldable pub run_setup : List (Bytes × Bytes) → Step W
  unfolding using_connection run_scripts
  run_setup [] s = (none, s)
  run_setup (script ∷ scripts) s = using_connection (run_scripts (script ∷ scripts)) s

  -- `source.Original.File`, which is not nil: the instrumenter refuses an input without a file.
  abbrev pub relative_path : Option SourceFile → Bytes
  relative_path none = []
  relative_path (some f) = f.relative_path

  -- The identifiers of the implicit locations of a source that has loaded.
  abbrev pub implicit_sigs : List CoveragePoint → List Bytes
  implicit_sigs [] = []
  implicit_sigs (loc ∷ locs) =
      (if loc.implicit_coverage then loc.signal_id ∷ [] else []) ++ implicit_sigs locs

  abbrev pub mark_loaded : InstrumentedSql → Session W → Session W
  mark_loaded source s = record s { sigs = s.sigs ++ implicit_sigs source.locations }

  unfoldable pub load_sources : List InstrumentedSql → Step W
  unfolding run_sql release
  load_sources [] s = (none, s)
  load_sources (source ∷ sources) s =
      or_release
        (run_sql (WorkflowError.cannot_load (relative_path source.original.file))
          source.instrumented_text s)
        (λ s'. load_sources sources (mark_loaded source s'))

  -- `err != context.DeadlineExceeded && err != context.Canceled`
  abbrev note_collected : (List Bytes × Option CollectError) × W → Step W
  note_collected ((_, some (CollectError.other_error e)), w) s =
      (some (WorkflowError.cannot_collect e), record s { world = w })
  note_collected ((signals, _), w) s = (none, record s { world = w; sigs = s.sigs ++ signals })

  unfoldable pub collect : Step W
  collect s = note_collected (server.collect_signals s.world) s

  unfoldable pub run_content : Bytes → Step W
  unfolding run_sql collect
  run_content content s = attempt (run_sql WorkflowError.test_execution_failed content s) collect

  abbrev note_read : Result Bytes Bytes × W → (Bytes → Step W) → Step W
  note_read (err e, w) next s = (some (WorkflowError.cannot_read e), record s { world = w })
  note_read (ok content, w) next s =
      next content (record s { world = w; current = TestStatus.test_running })

  unfoldable pub run_test : Bytes → Step W
  unfolding bracket run_content
  run_test path s =
      note_read (server.read_file path s.world)
        (λ content. bracket Resource.connection (run_content content)) s

  unfoldable pub execute_test_workflow :
      List (Bytes × Bytes) → Bytes → List InstrumentedSql → Step W
  unfolding bracket using_connection run_setup load_sources run_test
  execute_test_workflow setup path sources = bracket Resource.temp_database (
      bracket Resource.listening (λ s0.
        attempt (run_setup setup s0)
          (λ s1. attempt (using_connection (load_sources sources) s1) (λ s2. run_test path s2))))

  path_of : Option SourceFile → Bytes
  path_of none = []
  path_of (some f) = f.path

  -- The sources in the directory of the test.
  unfoldable pub filter_sources_by_directory : List InstrumentedSql → Bytes → List InstrumentedSql
  unfolding bytes_eq path_of
  filter_sources_by_directory [] test_dir = []
  filter_sources_by_directory (src ∷ sources) test_dir =
      if bytes_eq (server.dir (path_of src.original.file)) test_dir
      then src ∷ filter_sources_by_directory sources test_dir
      else filter_sources_by_directory sources test_dir

  abbrev pub sources_of : Bool → List InstrumentedSql → Bytes → List InstrumentedSql
  sources_of true sources test_dir = sources
  sources_of false sources test_dir = filter_sources_by_directory sources test_dir

  -- The status that `Execute` gives a run, by its error and what became of the two contexts.
  abbrev pub outcome : Option WorkflowError → W → TestStatus
  outcome none w = TestStatus.test_passed
  outcome (some e) w =
      if server.is_timed_out w && (if server.is_cancelled w then false else true)
      then TestStatus.test_timeout
      else TestStatus.test_failed

  abbrev finish : Option WorkflowError × Session W → Option WorkflowError × Session W
  finish (r, s) = (r, record s { current = outcome r s.world })

  unfoldable pub execute :
      Bool
      → List (Bytes × Bytes)
      → SourceFile
      → List InstrumentedSql
      → W
      → Option WorkflowError × Session W
  unfolding execute_test_workflow filter_sources_by_directory
  execute explicit_sources setup test sources w = finish (
      execute_test_workflow setup test.path
        (sources_of explicit_sources sources (server.dir test.path))
        (record { world = w; log = []; name = []; current = TestStatus.test_pending; sigs = [] }))

  -- `ExecuteBatch` stops after the first run at whose end the context is done.
  unfoldable pub execute_batch :
      Bool
      → List (Bytes × Bytes)
      → List SourceFile
      → List InstrumentedSql
      → W
      → List (Option WorkflowError × Session W)
  unfolding execute
  execute_batch explicit_sources setup [] sources w = []
  execute_batch explicit_sources setup (test ∷ tests) sources w =
      let run = execute explicit_sources setup test sources w in
      let rest = execute_batch explicit_sources setup tests sources run.1.world in
      run ∷ (if server.is_cancelled run.1.world then [] else rest)
