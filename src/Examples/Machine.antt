-- ===== src/Examples/Machine.antt =====
-- A machine on which `pgcov run` finds one test and one source, for the theorems on commands.
use pgcov.Base.{
  ℕ, ltb, Bool, true, false, none, some, List, [], ◌∷◌, ◌++◌, Bytes, codes, bytes_eq, ◌≡◌, sym, ap,
  subst, inl, inr, Bool-cases, if◌then◌else◌, refl, Result, ok, err,
}
use pgcov.Config.{Config, RunFlags, override}
use pgcov.Discovery.{Files, Stat, Visit}
use pgcov.Database.{PoolConfig, Driver, Session, Action, new_pool}
use pgcov.Coverage.Store.{Storage, FileState, save}
use pgcov.Instrument.Files.{SourceFile, InstrumentedSql}
use pgcov.Runner.{TestStatus, TestRun, run_exit_code, summarize_runs}
use pgcov.Runner.Pool.{Batch}
use pgcov.Commands.Run.{Env, Prepared, Ending, prepare, conclude, collected, Executed, Run}
use pgcov.Text.{equal_fold}
use pgcov.Signal.{parse_signal_id}
use pgcov.Collector.{
  bump, initialize_from_instrumented, seed_all, seed, collect_from_runs, collect_from_run,
  add_signal_unsafe,
}
use pgcov.Commands.Main.{new_config, search_path_of, config_of}
use native.Mathlib.Decide.{ℕ_discrete}
use pgcov.Dict.{lookup, insert}
use pgcov.Dict.Laws.{lookup-insert_self}
use pgcov.Coverage.{Coverage, IsWf, clone, find_hits, new_coverage, add_implicit_position}
use pgcov.Commands.Run.Saved.{SavesText, conclude-Written}
use pgcov.Text.Utf8.{is_utf8}
use pgcov.Coverage.Texts.{IsText}
use pgcov.Commands.Combine.Sums.{SameData, StorageLaws}
use pgcov.Examples.Combining.{Drive, state_of, content_of, Coverage-discrete}
use pgcov.Examples.Weaving.{small_lexer, tokens_from}
use pgcov.Parser.{StatementType, split_and_classify}
use pgcov.Decimal.{print_int, atoi}

-- One test and one source in one directory, both with the same text.
abbrev pub sql_files : Files
sql_files = record {
  abs = λ p. ok (codes "/" ++ p);
  stat = λ p. Stat.stat_dir;
  walk = λ p. (codes "/a.sql", Visit.visit_file 1) ∷ (codes "/a_test.sql", Visit.visit_file 1) ∷ [];
  rel = λ r p. ok p;
  to_slash = λ p. p;
  base = λ p. p;
  dir = λ p. codes "/";
}

-- The coverage that the run saves, which is the only one that the disk can encode.
abbrev pub the_coverage : Coverage
the_coverage = record {
  version = codes "2.0";
  timestamp = 7;
  positions = [];
  implicit_positions = (codes "/a.sql", some ((codes "0:12", 1) ∷ [])) ∷ [];
  root = codes "/.";
}

abbrev pub the_content : Bytes
the_content = codes "json"

encode_by : (c : Coverage) → Dec (c ≡ the_coverage) → Result Bytes Bytes
encode_by c (yes _) = ok the_content
encode_by c (no _) = err (codes "unknown")

unfoldable pub encode : Coverage → Result Bytes Bytes
unfolding encode_by Coverage-discrete ℕ_discrete
encode c = encode_by c (Coverage-discrete c the_coverage)

unfoldable pub decode : Bytes → Result Bytes Coverage
decode content = if bytes_eq content the_content then ok the_coverage else err (codes "bad JSON")

-- The world is the files on the disk.
abbrev pub World : Type 0
World = Drive

abbrev pub server : Driver (Unit {0}) (PoolConfig Unit) World
server = record {
  parse_config = λ text.
      ok (record {
        application_name = [];
        max_conns = 4;
        database = codes "postgres";
        options = tt;
      });
  new_with_config = λ conf w. (ok conf, w);
  config = λ pool. pool;
  query_version = λ pool w. (ok (codes "150004"), w);
  exec = λ pool sql w. (none, w);
  close = λ pool w. w;
  sanitize = λ name. codes "\"" ++ (name ++ codes "\"");
}

abbrev pub disk : Storage World
disk = record {
  dir = λ p. codes "/";
  stat = λ p w. state_of (lookup p w);
  read_file = λ p w. content_of (lookup p w);
  mkdir_all = λ p w. (none, w);
  write_file = λ p content w. (none, insert p content w);
  remove = λ p w. (none, w);
  marshal = encode;
  unmarshal = decode;
}

decode-IsWf :
    (content : Bytes) (c : Coverage)
    → decode content ≡ ok c
    → IsWf c.positions × IsWf c.implicit_positions
unfolding decode
decode-IsWf content c e = elim (Bool-cases (bytes_eq content the_content)) [
  | inl same ↦
      let q : the_coverage ≡ c = cc (rw same at e) in
      subst (λ d. IsWf d.positions × IsWf d.implicit_positions) q
        (record { files = tt; inner = tt }, record { files = (tt, tt); inner = ((tt, tt), tt) })
  | inr other ↦ cc (rw other at e)
]

pub the_coverage-IsText : IsText the_coverage
unfolding is_utf8
the_coverage-IsText = record {
  version = refl;
  root = refl;
  executable = tt;
  implicit = (refl, (refl, tt), tt);
}

decode-IsText : (content : Bytes) (c : Coverage) → decode content ≡ ok c → IsText c
unfolding decode
decode-IsText content c e = elim (Bool-cases (bytes_eq content the_content)) [
  | inl same ↦ let q : the_coverage ≡ c = cc (rw same at e) in subst IsText q the_coverage-IsText
  | inr other ↦ cc (rw other at e)
]

decode_content : decode the_content ≡ ok the_coverage
unfolding decode bytes_eq
decode_content = refl

decode-encode_by :
    (c : Coverage) (content : Bytes) (d : Dec (c ≡ the_coverage))
    → encode_by c d ≡ ok content
    → (d : Coverage) × (decode content ≡ ok d) × SameData c d
unfolding encode_by
decode-encode_by c content (yes p) e =
    let at_content : the_content ≡ content = cc in
    (
      the_coverage,
      subst (λ t. decode t ≡ ok the_coverage) at_content decode_content,
      subst (λ x. SameData x the_coverage) (sym p)
          (record {
            version = refl;
            root = refl;
            executable = λ f k. refl;
            implicit = λ f k. refl;
          }),
    )
decode-encode_by c content (no p) e = cc

pub disk_laws : StorageLaws disk
disk_laws = record {
  there = λ path content w w' e.
      subst (λ v. state_of (lookup path v) ≡ FileState.is_there) (ap (λ r. r.1) e)
        (rw (lookup-insert_self path content w) (unfold state_of in refl));
  read_back = λ path content w w' e.
      subst (λ v. content_of (lookup path v) ≡ ok content) (ap (λ r. r.1) e)
        (rw (lookup-insert_self path content w) (unfold content_of in refl));
  decoded = λ c content t e.
      decode-encode_by c content (Coverage-discrete c the_coverage) (unfold encode in e);
  maps = decode-IsWf;
  texts = decode-IsText;
}

abbrev pub machine : Env ℕ (Unit {0}) (PoolConfig Unit) World
machine = record {
  lexer = small_lexer;
  files = sql_files;
  glob = λ p. ok (p ∷ []);
  mod_time = λ p. 1;
  read_file = λ p. ok (codes "BEGIN x; END");
  random = ok (0 ∷ 171 ∷ 16 ∷ 255 ∷ []);
  driver = server;
  storage = disk;
  now = 7;
  threshold = λ f. ltb 0 f;
  below = λ counts f. false;
}

abbrev pub given : Bytes → Bool
given name = bytes_eq name (codes "connection")

-- The flags of which only the connection is set.
abbrev pub flags : RunFlags ℕ
flags = record {
  flag_connection = codes "host=h";
  flag_timeout = 0;
  flag_signal_timeout = 0;
  flag_parallel = 0;
  flag_coverage_file = [];
  flag_setup_files = [];
  flag_source_files = [];
  flag_verbose = false;
  flag_fail_under = 0;
}

abbrev pub the_config : Config ℕ
the_config = config_of 0 given flags

abbrev pub the_test : SourceFile
the_test = record { path = codes "/a_test.sql"; relative_path = codes "/a_test.sql" }

abbrev pub the_source : InstrumentedSql
the_source = record {
  original = record {
    file = some (record { path = codes "/a.sql"; relative_path = codes "/a.sql" });
    statements =
        record {
          raw_sql = codes "BEGIN x; END";
          start_pos = 0;
          start_line = 1;
          end_line = 1;
          ty = StatementType.stmt_other;
          language = [];
          body = [];
          body_start = 0;
        }
        ∷ [];
  };
  instrumented_text = codes "BEGIN x; END";
  locations =
      record {
        file = codes "/a.sql";
        start_pos = 0;
        len = 12;
        signal_id = codes "/a.sql:0:12";
        implicit_coverage = true;
      }
      ∷ [];
}

abbrev pub the_prepared : Prepared
the_prepared = record { tests = the_test ∷ []; sources = the_source ∷ [] }

abbrev pub the_run : TestRun
the_run = record {
  test = some the_test;
  database = codes "db";
  duration = 1;
  status = TestStatus.test_passed;
  error = none;
  coverage_sigs = codes "/a.sql:0:12" ∷ [];
}

-- Every test passes, and signals the one location.
abbrev pub Signalled :
    Bool → List (Bytes × Bytes) → List InstrumentedSql → SourceFile → TestRun → Type 0
Signalled b scripts sources f run = run ≡ record the_run { test = some f }

abbrev pub at_rest : Session (PoolConfig Unit) World
at_rest = record { world = []; log = [] }

abbrev pub opened_pool : PoolConfig Unit
opened_pool = record {
  application_name = codes "pgcov";
  max_conns = 4;
  database = codes "postgres";
  options = tt;
}

abbrev pub connected : Session (PoolConfig Unit) World
connected = record { world = []; log = Action.opened opened_pool ∷ [] }

abbrev pub at_end : Session (PoolConfig Unit) World
at_end = record {
  world = (codes ".pgcov/coverage.json", the_content) ∷ [];
  log = Action.closed opened_pool ∷ Action.opened opened_pool ∷ [];
}

pub machine_prepares : prepare machine the_config (search_path_of []) ≡ ok (some the_prepared)
unfolding prepare tokens_from print_int split_and_classify equal_fold override new_config bytes_eq
machine_prepares = refl

pub machine_connects : new_pool server the_config at_rest ≡ (ok opened_pool, connected)
unfolding new_pool atoi override bytes_eq new_config
machine_connects = refl

pub machine_concludes :
    conclude machine the_config (search_path_of []) the_prepared.sources (some (the_run ∷ [])) []
    ≡ (Ending.exited 0, at_end.world)
unfolding encode clone insert collected save collect_from_runs collect_from_run add_signal_unsafe
    parse_signal_id atoi run_exit_code summarize_runs override bytes_eq new_config bump find_hits
    initialize_from_instrumented seed_all seed new_coverage add_implicit_position print_int
    search_path_of
machine_concludes = refl

encode-IsText :
    (c : Coverage) (content : Bytes) (d : Dec (c ≡ the_coverage))
    → encode_by c d ≡ ok content
    → IsText c
unfolding encode_by
encode-IsText c content (yes p) e = subst IsText (sym p) the_coverage-IsText
encode-IsText c content (no p) e = cc

pub machine_saves : SavesText machine the_config (search_path_of []) Signalled false
unfolding encode
machine_saves p scripts runs rs n w w' prepared set_up executed here exits =
    let (content, m, at_world) =
      conclude-Written machine the_config (search_path_of []) (λ t v. (none, v)) p.sources rs n w w'
        exits in
    encode-IsText _ content (Coverage-discrete _ the_coverage) m

pub machine_runs :
    Run machine the_config (search_path_of []) Signalled false at_rest (Ending.exited 0) at_end
unfolding override bytes_eq new_config
machine_runs =
    Run.ran the_prepared opened_pool [] (some the_run ∷ []) [] connected [] at_end.world
      (Ending.exited 0) machine_prepares machine_connects refl
      (Executed.in_order (the_run ∷ []) refl (Batch.more the_test the_run refl (Batch.done false))
        refl)
      machine_concludes
