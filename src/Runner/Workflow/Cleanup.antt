-- ===== src/Runner/Workflow/Cleanup.antt =====
-- Every resource that the workflow opens is closed, whatever fails.
use pgcov.Base.{
  ℕ, ◌+◌, Bool, Option, none, some, List, [], ◌∷◌, if◌then◌else◌, Bytes, Result, ok, err, ◌≡◌, refl,
  arith, ◌==◌,
}
use pgcov.Runner.{TestStatus}
use pgcov.Instrument.Files.{SourceFile, InstrumentedSql}
use pgcov.Runner.Workflow.{
  Resource, CollectError, Server, Action, Session, WorkflowError, Step, attempt, finally, acquire,
  release, bracket, or_release, using_connection, run_sql, run_scripts, run_setup, load_sources,
  mark_loaded, collect, run_content, run_test, execute_test_workflow, execute, sources_of,
  note_opened, note_executed, note_collected, note_read, relative_path,
}

abbrev tag : Resource → ℕ
tag Resource.temp_database = 0
tag Resource.listening = 1
tag Resource.connection = 2

-- How often the log opens, and closes, the resource.
abbrev pub opens : Resource → List Action → ℕ
opens r [] = 0
opens r (Action.opened q ∷ l) = (if tag r == tag q then 1 else 0) + opens r l
opens r (_ ∷ l) = opens r l

abbrev pub closes : Resource → List Action → ℕ
closes r [] = 0
closes r (Action.closed q ∷ l) = (if tag r == tag q then 1 else 0) + closes r l
closes r (_ ∷ l) = closes r l

-- From one log to the other as many are opened as closed.
abbrev Even : List Action → List Action → Type 0
Even l l' = (r : Resource) → opens r l' + closes r l ≡ opens r l + closes r l'

module _ {W : Type 0} where
  -- The step leaves nothing acquire.
  abbrev Tidy : Step W → Type 0
  Tidy f = (s : Session W) → Even s.log (f s).1.log

  attempt-Even :
      (l : List Action) (m : Option WorkflowError × Session W) (next : Step W)
      → Even l m.1.log
      → Tidy next
      → Even l (attempt m next).1.log
  attempt-Even l (some e, s) next h k = h
  attempt-Even l (none, s) next h k = λ r. omega (arith, h r, k s r)

module _ {W : Type 0} (server : Server W) where
  after_acquire :
      (r : Resource) (opening : Result Bytes Bytes) (w : W) (s : Session W) (body : Step W)
      → Tidy body
      → Even s.log
          (attempt
            (note_opened server r (opening, w) s)
            (λ s'. finally (body s') (release server r))).1.log
  unfolding release
  after_acquire r (err e) w s body t = λ q. refl
  after_acquire r (ok n) w s body t = λ q. omega (arith, t (note_opened server r (ok n, w) s).1 q)

  with_resource-Tidy : (r : Resource) (body : Step W) → Tidy body → Tidy (bracket server r body)
  unfolding bracket acquire
  with_resource-Tidy r body t s =
      let m = server.open_resource r s.world in after_acquire r m.0 m.1 s body t

  -- From a log with an open connection: what succeeds leaves it open, what fails has closed it.
  abbrev Held : List Action → Option WorkflowError × Session W → Type 0
  Held l (none, s) = Even l s.log
  Held l (some e, s) = Even (Action.closed Resource.connection ∷ l) s.log

  Held-trans :
      (l : List Action) (s : Session W) (m : Option WorkflowError × Session W)
      → Even l s.log
      → Held s.log m
      → Held l m
  Held-trans l s (none, s') h k = λ r. omega (arith, h r, k r)
  Held-trans l s (some e, s') h k = λ r. omega (arith, h r, k r)

  or_release-Held :
      (l : List Action) (m : Option WorkflowError × Session W) (next : Step W)
      → Even l m.1.log
      → ((s : Session W) → Held s.log (next s))
      → Held l (or_release server m next)
  unfolding release
  or_release-Held l (some e, s) next h k = λ r. omega (arith, h r)
  or_release-Held l (none, s) next h k = Held-trans l s (next s) h (k s)

  after_body :
      (l : List Action) (m : Option WorkflowError × Session W)
      → Held (Action.opened Resource.connection ∷ l) m
      → Even l (attempt m (λ s1. (none, release server Resource.connection s1))).1.log
  unfolding release
  after_body l (some e, s) h = λ r. omega (arith, h r)
  after_body l (none, s) h = λ r. omega (arith, h r)

  after_acquire_connection :
      (opening : Result Bytes Bytes) (w : W) (s : Session W) (body : Step W)
      → ((s' : Session W) → Held s'.log (body s'))
      → Even s.log
          (attempt
            (note_opened server Resource.connection (opening, w) s)
            (λ s0. attempt (body s0) (λ s1. (none, release server Resource.connection s1)))).1.log
  after_acquire_connection (err e) w s body k = λ q. refl
  after_acquire_connection (ok n) w s body k =
      let s0 = (note_opened server Resource.connection (ok n, w) s).1 in
      after_body s.log (body s0) (k s0)

  using_connection-Tidy :
      (body : Step W)
      → ((s' : Session W) → Held s'.log (body s'))
      → Tidy (using_connection server body)
  unfolding using_connection acquire
  using_connection-Tidy body k s =
      let m = server.open_resource Resource.connection s.world in
      after_acquire_connection m.0 m.1 s body k

  note_executed-Tidy :
      (wrap : Bytes → WorkflowError) (text : Bytes) (m : Option Bytes) (w : W) (s : Session W)
      → Even s.log (note_executed server wrap text (m, w) s).1.log
  note_executed-Tidy wrap text none w s = λ q. refl
  note_executed-Tidy wrap text (some e) w s = λ q. refl

  run_sql-Tidy : (wrap : Bytes → WorkflowError) (text : Bytes) → Tidy (run_sql server wrap text)
  unfolding run_sql
  run_sql-Tidy wrap text s =
      let m = server.exec text s.world in note_executed-Tidy wrap text m.0 m.1 s

  run_scripts-Held :
      (scripts : List (Bytes × Bytes)) (s : Session W) → Held s.log (run_scripts server scripts s)
  unfolding run_scripts
  run_scripts-Held [] s = λ q. refl
  run_scripts-Held ((script, sql) ∷ scripts) s =
      or_release-Held s.log (run_sql server (WorkflowError.cannot_setup script) sql s)
        (run_scripts server scripts) (run_sql-Tidy (WorkflowError.cannot_setup script) sql s)
        (run_scripts-Held scripts)

  run_setup-Tidy : (scripts : List (Bytes × Bytes)) → Tidy (run_setup server scripts)
  unfolding run_setup
  run_setup-Tidy [] s = λ q. refl
  run_setup-Tidy (script ∷ scripts) s =
      using_connection-Tidy (run_scripts server (script ∷ scripts))
        (run_scripts-Held (script ∷ scripts)) s

  load_sources-Held :
      (sources : List InstrumentedSql) (s : Session W) → Held s.log (load_sources server sources s)
  unfolding load_sources
  load_sources-Held [] s = λ q. refl
  load_sources-Held (source ∷ sources) s =
      let wrap = WorkflowError.cannot_load (relative_path server source.original.file) in
      or_release-Held s.log (run_sql server wrap source.instrumented_text s)
        (λ s'. load_sources server sources (mark_loaded server source s'))
        (run_sql-Tidy wrap source.instrumented_text s)
        (λ s'. load_sources-Held sources (mark_loaded server source s'))

  note_collected-Tidy :
      (signals : List Bytes) (e : Option CollectError) (w : W) (s : Session W)
      → Even s.log (note_collected server ((signals, e), w) s).1.log
  note_collected-Tidy signals none w s = λ q. refl
  note_collected-Tidy signals (some CollectError.deadline_exceeded) w s = λ q. refl
  note_collected-Tidy signals (some CollectError.canceled) w s = λ q. refl
  note_collected-Tidy signals (some (CollectError.other_error e)) w s = λ q. refl

  collect-Tidy : Tidy (collect server)
  unfolding collect
  collect-Tidy s = let m = server.collect_signals s.world in note_collected-Tidy m.0.0 m.0.1 m.1 s

  run_content-Tidy : (content : Bytes) → Tidy (run_content server content)
  unfolding run_content
  run_content-Tidy content s =
      attempt-Even s.log (run_sql server WorkflowError.test_execution_failed content s)
        (collect server) (run_sql-Tidy WorkflowError.test_execution_failed content s) collect-Tidy

  after_read :
      (read : Result Bytes Bytes) (w : W) (s : Session W) (next : Bytes → Step W)
      → ((content : Bytes) → Tidy (next content))
      → Even s.log (note_read server (read, w) next s).1.log
  after_read (err e) w s next t = λ q. refl
  after_read (ok content) w s next t =
      t content (record s { world = w; current = TestStatus.test_running })

  run_test-Tidy : (path : Bytes) → Tidy (run_test server path)
  unfolding run_test
  run_test-Tidy path s =
      let m = server.read_file path s.world in
      after_read m.0 m.1 s
        (λ content. bracket server Resource.connection (run_content server content))
        (λ content.
          with_resource-Tidy Resource.connection (run_content server content)
            (run_content-Tidy content))

  then-Tidy :
      (first : Step W) (next : Step W) → Tidy first → Tidy next → Tidy (λ s. attempt (first s) next)
  then-Tidy first next t u s = attempt-Even s.log (first s) next (t s) u

  workflow-Tidy :
      (setup : List (Bytes × Bytes)) (path : Bytes) (sources : List InstrumentedSql)
      → Tidy (execute_test_workflow server setup path sources)
  unfolding execute_test_workflow
  workflow-Tidy setup path sources =
      let load = using_connection server (load_sources server sources) in
      let rest = λ (s1 : Session W). attempt (load s1) (run_test server path) in
      let body = λ (s0 : Session W). attempt (run_setup server setup s0) rest in
      let loads = using_connection-Tidy (load_sources server sources) (load_sources-Held sources) in
      let body-Tidy =
        then-Tidy (run_setup server setup) rest (run_setup-Tidy setup)
          (then-Tidy load (run_test server path) loads (run_test-Tidy path)) in
      with_resource-Tidy Resource.temp_database (bracket server Resource.listening body)
        (with_resource-Tidy Resource.listening body body-Tidy)

  -- However a run ends, each resource has been closed as often as it was opened: no temporary
  -- database, listener or connection is left.
  pub execute-closes :
      (explicit_sources : Bool) (setup : List (Bytes × Bytes)) (test : SourceFile)
      (sources : List InstrumentedSql) (w : W) (r : Resource)
      → opens r (execute server explicit_sources setup test sources w).1.log
        ≡ closes r (execute server explicit_sources setup test sources w).1.log
  unfolding execute
  execute-closes explicit_sources setup test sources w r =
      let s : Session W = record {
        world = w;
        log = [];
        name = [];
        current = TestStatus.test_pending;
        sigs = [];
      } in
      omega (
        arith,
        workflow-Tidy setup test.path
            (sources_of server explicit_sources sources (server.dir test.path)) s r,
      )
