-- ===== src/Runner/Workflow/Order.antt =====
-- What a run that passes has executed, in which order, and which signals it holds.
use pgcov.Base.{
  Bool, true, false, Option, none, some, List, [], ◌∷◌, ◌++◌, if◌then◌else◌, Bytes, Result, ok, err,
  ◌≡◌, refl, sym, ap, ◌∙◌, subst, append_assoc, append-nil, ◌&&◌,
}
use pgcov.Runner.{TestStatus}
use pgcov.Instrument.Files.{SourceFile, InstrumentedSql}
use pgcov.Runner.Workflow.{
  Resource, CollectError, Server, Action, Session, WorkflowError, Step, attempt, finally, acquire,
  release, bracket, or_release, using_connection, run_sql, run_scripts, run_setup, load_sources,
  mark_loaded, collect, run_content, run_test, execute_test_workflow, execute, sources_of,
  note_opened, note_executed, note_collected, note_read, relative_path, implicit_sigs, outcome,
}

-- The texts that were executed, the first one first.
abbrev pub texts : List Action → List Bytes
texts [] = []
texts (Action.executed t ∷ l) = texts l ++ (t ∷ [])
texts (_ ∷ l) = texts l

abbrev pub scripts_of : List (Bytes × Bytes) → List Bytes
scripts_of [] = []
scripts_of ((script, sql) ∷ scripts) = sql ∷ scripts_of scripts

abbrev pub texts_of : List InstrumentedSql → List Bytes
texts_of [] = []
texts_of (source ∷ sources) = source.instrumented_text ∷ texts_of sources

abbrev pub marks : {W : Type 0} → Server W → List InstrumentedSql → List Bytes
marks server [] = []
marks server (source ∷ sources) = implicit_sigs server source.locations ++ marks server sources

module _ {W : Type 0} where
  -- From one session to the other these texts were executed and these signals were added.
  abbrev pub Ran : Session W → Session W → List Bytes → List Bytes → Type 0
  Ran s s' ts ss = texts s'.log ≡ texts s.log ++ ts × s'.sigs ≡ s.sigs ++ ss

  Ran-trans :
      (s s' s'' : Session W) (ts ts' ss ss' : List Bytes)
      → Ran s s' ts ss
      → Ran s' s'' ts' ss'
      → Ran s s'' (ts ++ ts') (ss ++ ss')
  Ran-trans s s' s'' ts ts' ss ss' (a, b) (c, d) = (
    c ∙ ap (λ x. x ++ ts') a ∙ append_assoc (texts s.log) ts ts',
    d ∙ ap (λ x. x ++ ss') b ∙ append_assoc s.sigs ss ss',
  )

  Ran-refl : (s : Session W) → Ran s s [] []
  Ran-refl s = (sym (append-nil (texts s.log)), sym (append-nil s.sigs))

  attempt-none :
      (m : Option WorkflowError × Session W) (next : Step W)
      → (attempt m next).0 ≡ none
      → m.0 ≡ none × (next m.1).0 ≡ none × (attempt m next).1 ≡ (next m.1).1
  attempt-none (none, s) next h = (refl, h, refl)
  attempt-none (some e, s) next h = cc

module _ {W : Type 0} (server : Server W) where
  note_executed-Ran :
      (wrap : Bytes → WorkflowError) (text : Bytes) (m : Option Bytes) (w : W) (s : Session W)
      → Ran s (note_executed server wrap text (m, w) s).1 (text ∷ []) []
  note_executed-Ran wrap text none w s = (refl, sym (append-nil s.sigs))
  note_executed-Ran wrap text (some e) w s = (refl, sym (append-nil s.sigs))

  run_sql-Ran :
      (wrap : Bytes → WorkflowError) (text : Bytes) (s : Session W)
      → Ran s (run_sql server wrap text s).1 (text ∷ []) []
  unfolding run_sql
  run_sql-Ran wrap text s =
      let m = server.exec text s.world in note_executed-Ran wrap text m.0 m.1 s

  -- Two steps, both of which succeed.
  chain-Ran :
      (s : Session W) (m : Option WorkflowError × Session W) (next : Step W)
      (ts ts' ss ss' : List Bytes)
      → (attempt m next).0 ≡ none
      → (m.0 ≡ none → Ran s m.1 ts ss)
      → ((next m.1).0 ≡ none → Ran m.1 (next m.1).1 ts' ss')
      → Ran s (attempt m next).1 (ts ++ ts') (ss ++ ss')
  chain-Ran s m next ts ts' ss ss' h f g =
      let (a, b, e) = attempt-none m next h in
      subst (λ x. Ran s x (ts ++ ts') (ss ++ ss')) (sym e)
        (Ran-trans s m.1 (next m.1).1 ts ts' ss ss' (f a) (g b))

  -- Where the whole succeeds nothing is released early.
  or_release-attempt :
      (m : Option WorkflowError × Session W) (next : Step W)
      → (or_release server m next).0 ≡ none
      → or_release server m next ≡ attempt m next
  or_release-attempt (none, s) next h = refl
  or_release-attempt (some e, s) next h = cc

  -- Two steps with a connection, both of which succeed.
  release_chain-Ran :
      (s : Session W) (m : Option WorkflowError × Session W) (next : Step W)
      (ts ts' ss ss' : List Bytes)
      → (or_release server m next).0 ≡ none
      → (m.0 ≡ none → Ran s m.1 ts ss)
      → ((next m.1).0 ≡ none → Ran m.1 (next m.1).1 ts' ss')
      → Ran s (or_release server m next).1 (ts ++ ts') (ss ++ ss')
  release_chain-Ran s m next ts ts' ss ss' h f g =
      let q = or_release-attempt m next h in
      subst (λ r. Ran s r.1 (ts ++ ts') (ss ++ ss')) (sym q)
        (chain-Ran s m next ts ts' ss ss' (ap (λ r. r.0) (sym q) ∙ h) f g)

  run_scripts-Ran :
      (scripts : List (Bytes × Bytes)) (s : Session W)
      → (run_scripts server scripts s).0 ≡ none
      → Ran s (run_scripts server scripts s).1 (scripts_of scripts) []
  unfolding run_scripts
  run_scripts-Ran [] s h = Ran-refl s
  run_scripts-Ran ((script, sql) ∷ scripts) s h =
      let m = run_sql server (WorkflowError.cannot_setup script) sql s in
      release_chain-Ran s m (run_scripts server scripts) (sql ∷ []) (scripts_of scripts) [] [] h
        (λ _. run_sql-Ran (WorkflowError.cannot_setup script) sql s)
        (λ k. run_scripts-Ran scripts m.1 k)

  -- Opening and closing a resource changes neither the texts nor the signals.
  module _ (P : List Bytes → List Bytes → List Bytes → List Bytes → Type 0) where
    abbrev pub Keeps : Session W → Session W → Type 0
    Keeps s s' = P (texts s.log) s.sigs (texts s'.log) s'.sigs

    after_acquire :
        (r : Resource) (opening : Result Bytes Bytes) (w : W) (s : Session W) (body : Step W)
        → (attempt
            (note_opened server r (opening, w) s)
            (λ s'. finally (body s') (release server r))).0
          ≡ none
        → ((s' : Session W) → (body s').0 ≡ none → Keeps s' (body s').1)
        → Keeps s
            (attempt
              (note_opened server r (opening, w) s)
              (λ s'. finally (body s') (release server r))).1
    unfolding release
    after_acquire r (err e) w s body h k = cc
    after_acquire r (ok n) w s body h k = k (note_opened server r (ok n, w) s).1 h

    bracket-Keeps :
        (r : Resource) (body : Step W) (s : Session W)
        → (bracket server r body s).0 ≡ none
        → ((s' : Session W) → (body s').0 ≡ none → Keeps s' (body s').1)
        → Keeps s (bracket server r body s).1
    unfolding bracket acquire
    bracket-Keeps r body s h k =
        let m = server.open_resource r s.world in after_acquire r m.0 m.1 s body h k

    after_body :
        (s0 : Session W) (m : Option WorkflowError × Session W)
        → (attempt m (λ s1. (none, release server Resource.connection s1))).0 ≡ none
        → (m.0 ≡ none → Keeps s0 m.1)
        → Keeps s0 (attempt m (λ s1. (none, release server Resource.connection s1))).1
    unfolding release
    after_body s0 (some e, s) h k = cc
    after_body s0 (none, s) h k = k refl

    after_acquire_connection :
        (opening : Result Bytes Bytes) (w : W) (s : Session W) (body : Step W)
        → (attempt
            (note_opened server Resource.connection (opening, w) s)
            (λ s0. attempt (body s0) (λ s1. (none, release server Resource.connection s1)))).0
          ≡ none
        → ((s' : Session W) → (body s').0 ≡ none → Keeps s' (body s').1)
        → Keeps s
            (attempt
              (note_opened server Resource.connection (opening, w) s)
              (λ s0. attempt (body s0) (λ s1. (none, release server Resource.connection s1)))).1
    after_acquire_connection (err e) w s body h k = cc
    after_acquire_connection (ok n) w s body h k =
        let s0 = (note_opened server Resource.connection (ok n, w) s).1 in
        after_body s0 (body s0) h (k s0)

    using_connection-Keeps :
        (body : Step W) (s : Session W)
        → (using_connection server body s).0 ≡ none
        → ((s' : Session W) → (body s').0 ≡ none → Keeps s' (body s').1)
        → Keeps s (using_connection server body s).1
    unfolding using_connection acquire
    using_connection-Keeps body s h k =
        let m = server.open_resource Resource.connection s.world in
        after_acquire_connection m.0 m.1 s body h k

  abbrev Adds : List Bytes → List Bytes → List Bytes → List Bytes → List Bytes → List Bytes → Type 0
  Adds ts ss t s t' s' = t' ≡ t ++ ts × s' ≡ s ++ ss

  run_setup-Ran :
      (scripts : List (Bytes × Bytes)) (s : Session W)
      → (run_setup server scripts s).0 ≡ none
      → Ran s (run_setup server scripts s).1 (scripts_of scripts) []
  unfolding run_setup
  run_setup-Ran [] s h = Ran-refl s
  run_setup-Ran (script ∷ scripts) s h =
      using_connection-Keeps (Adds (scripts_of (script ∷ scripts)) [])
        (run_scripts server (script ∷ scripts)) s h (run_scripts-Ran (script ∷ scripts))

  mark_loaded-Ran :
      (source : InstrumentedSql) (s : Session W)
      → Ran s (mark_loaded server source s) [] (implicit_sigs server source.locations)
  mark_loaded-Ran source s = (sym (append-nil (texts s.log)), refl)

  load_sources-Ran :
      (sources : List InstrumentedSql) (s : Session W)
      → (load_sources server sources s).0 ≡ none
      → Ran s (load_sources server sources s).1 (texts_of sources) (marks server sources)
  unfolding load_sources
  load_sources-Ran [] s h = Ran-refl s
  load_sources-Ran (source ∷ sources) s h =
      let wrap = WorkflowError.cannot_load (relative_path server source.original.file) in
      let m = run_sql server wrap source.instrumented_text s in
      release_chain-Ran s m (λ s'. load_sources server sources (mark_loaded server source s'))
        (source.instrumented_text ∷ []) (texts_of sources) [] (marks server (source ∷ sources)) h
        (λ _. run_sql-Ran wrap source.instrumented_text s)
        (λ k.
          let loaded = mark_loaded server source m.1 in
          Ran-trans m.1 loaded (load_sources server sources loaded).1 [] (texts_of sources)
            (implicit_sigs server source.locations) (marks server sources)
            (mark_loaded-Ran source m.1) (load_sources-Ran sources loaded k))

  -- The signals that the listener gave.
  abbrev pub Collected : List Bytes → Type 0
  Collected signals = (w : W) × (server.collect_signals w).0.0 ≡ signals

  -- What the disk gave for the path of the test.
  abbrev pub ReadFrom : Bytes → Bytes → Type 0
  ReadFrom path content = (w : W) × (server.read_file path w).0 ≡ ok content

  abbrev pub Tested : Bytes → List Bytes → List Bytes → List Bytes → List Bytes → Type 0
  Tested path t s t' s' =
      (content : Bytes) × (signals : List Bytes) × ReadFrom path content
      × Collected signals
      × t' ≡ t ++ (content ∷ [])
      × s' ≡ s ++ signals

  note_collected-adds :
      (signals : List Bytes) (e : Option CollectError) (w : W) (s : Session W)
      → (note_collected server ((signals, e), w) s).0 ≡ none
      → Ran s (note_collected server ((signals, e), w) s).1 [] signals
  note_collected-adds signals none w s h = (sym (append-nil (texts s.log)), refl)
  note_collected-adds signals (some CollectError.deadline_exceeded) w s h =
      (sym (append-nil (texts s.log)), refl)
  note_collected-adds signals (some CollectError.canceled) w s h =
      (sym (append-nil (texts s.log)), refl)
  note_collected-adds signals (some (CollectError.other_error e)) w s h = cc

  collect-Ran :
      (s : Session W)
      → (collect server s).0 ≡ none
      → Ran s (collect server s).1 [] (server.collect_signals s.world).0.0
  unfolding collect
  collect-Ran s h =
      let m = server.collect_signals s.world in note_collected-adds m.0.0 m.0.1 m.1 s h

  run_content-Tested :
      (path content : Bytes) (s : Session W)
      → ReadFrom path content
      → (run_content server content s).0 ≡ none
      → Tested path
          (texts s.log)
          s.sigs
          (texts (run_content server content s).1.log)
          (run_content server content s).1.sigs
  unfolding run_content
  run_content-Tested path content s r h =
      let m = run_sql server WorkflowError.test_execution_failed content s in
      let signals = (server.collect_signals m.1.world).0.0 in
      let (a, b) =
        chain-Ran s m (collect server) (content ∷ []) [] [] signals h
          (λ _. run_sql-Ran WorkflowError.test_execution_failed content s)
          (λ k. collect-Ran m.1 k) in
      (content, signals, r, (m.1.world, refl), a, b)

  after_read :
      (path : Bytes) (read : Result Bytes Bytes) (w w' : W) (s : Session W)
      → (server.read_file path w').0 ≡ read
      → (note_read server
          (read, w)
          (λ content. bracket server Resource.connection (run_content server content))
          s).0
        ≡ none
      → Keeps
          (Tested path)
          s
          (note_read server
            (read, w)
            (λ content. bracket server Resource.connection (run_content server content))
            s).1
  after_read path (err e) w w' s r h = cc
  after_read path (ok content) w w' s r h =
      bracket-Keeps (Tested path) Resource.connection (run_content server content)
        (record s { world = w; current = TestStatus.test_running }) h
        (λ s'. run_content-Tested path content s' (w', r))

  run_test-Tested :
      (path : Bytes) (s : Session W)
      → (run_test server path s).0 ≡ none
      → Keeps (Tested path) s (run_test server path s).1
  unfolding run_test
  run_test-Tested path s h =
      let m = server.read_file path s.world in after_read path m.0 m.1 s.world s refl h

  abbrev pub Passed :
      List (Bytes × Bytes)
      → Bytes
      → List InstrumentedSql
      → List Bytes
      → List Bytes
      → List Bytes
      → List Bytes
      → Type 0
  Passed setup path sources t s t' s' =
      (content : Bytes) × (signals : List Bytes) × ReadFrom path content
      × Collected signals
      × t' ≡ t ++ (scripts_of setup ++ (texts_of sources ++ (content ∷ [])))
      × s' ≡ s ++ (marks server sources ++ signals)

  body-Passed :
      (setup : List (Bytes × Bytes)) (path : Bytes) (sources : List InstrumentedSql) (s : Session W)
      → (attempt (run_setup server setup s) (λ s1.
          attempt
            (using_connection server (load_sources server sources) s1)
            (λ s2. run_test server path s2))).0
        ≡ none
      → Keeps
          (Passed setup path sources)
          s
          (attempt (run_setup server setup s) (λ s1.
            attempt
              (using_connection server (load_sources server sources) s1)
              (λ s2. run_test server path s2))).1
  body-Passed setup path sources s h =
      let m0 = run_setup server setup s in
      let load = using_connection server (load_sources server sources) in
      let m1 = load m0.1 in
      let (a, b, e) = attempt-none m0 (λ s1. attempt (load s1) (run_test server path)) h in
      let (c, d, f) = attempt-none m1 (run_test server path) b in
      let (content, signals, read, collected, p, q) = run_test-Tested path m1.1 d in
      let r0 = run_setup-Ran setup s a in
      let r1 =
        using_connection-Keeps (Adds (texts_of sources) (marks server sources))
          (load_sources server sources) m0.1 c (load_sources-Ran sources) in
      let s3 = (run_test server path m1.1).1 in
      let r =
        Ran-trans s m0.1 s3 (scripts_of setup) (texts_of sources ++ (content ∷ [])) []
          (marks server sources ++ signals) r0
          (Ran-trans m0.1 m1.1 s3 (texts_of sources) (content ∷ []) (marks server sources) signals
            r1 (p, q)) in
      subst (Keeps (Passed setup path sources) s) (sym (e ∙ f))
        (content, signals, read, collected, r.0, r.1)

  bad_status :
      (b : Bool) (e : WorkflowError)
      → (if b then TestStatus.test_timeout else TestStatus.test_failed) ≡ TestStatus.test_passed
      → some e ≡ none
  bad_status true e h = cc
  bad_status false e h = cc

  passed_of :
      (r : Option WorkflowError) (w : W) → outcome server r w ≡ TestStatus.test_passed → r ≡ none
  passed_of none w h = refl
  passed_of (some e) w h =
      bad_status (server.is_timed_out w && (if server.is_cancelled w then false else true)) e h

  -- A run that ends as passed has executed the setup scripts, then the sources of the directory of
  -- the test (all of them when they are given explicitly), then the content of the test file, in this
  -- order and nothing else; its signals are those of the implicit locations of these sources, then
  -- what the listener has collected.
  pub execute_passes :
      (explicit_sources : Bool) (setup : List (Bytes × Bytes)) (test : SourceFile)
      (sources : List InstrumentedSql) (w : W)
      → (execute server explicit_sources setup test sources w).1.current ≡ TestStatus.test_passed
      → Keeps
          (Passed setup test.path
            (sources_of server explicit_sources sources (server.dir test.path)))
          (record { world = w; log = []; name = []; current = TestStatus.test_pending; sigs = [] })
          (execute server explicit_sources setup test sources w).1
  unfolding execute execute_test_workflow
  execute_passes explicit_sources setup test sources w h =
      let s : Session W = record {
        world = w;
        log = [];
        name = [];
        current = TestStatus.test_pending;
        sigs = [];
      } in
      let chosen = sources_of server explicit_sources sources (server.dir test.path) in
      let P = Passed setup test.path chosen in
      let body = λ (s0 : Session W). attempt (run_setup server setup s0) (λ s1.
        attempt (using_connection server (load_sources server chosen) s1)
          (λ s2. run_test server test.path s2)) in
      let done = execute_test_workflow server setup test.path chosen s in
      bracket-Keeps P Resource.temp_database (bracket server Resource.listening body) s
        (passed_of done.0 done.1.world h)
        (λ s0 k. bracket-Keeps P Resource.listening body s0 k (body-Passed setup test.path chosen))
