-- ===== src/Examples/Connecting.antt =====
-- The connection pool, the temporary databases and the patterns at concrete inputs.
use pgcov.Base.{
  ℕ, ltb, false, none, List, [], ◌∷◌, ◌++◌, Bytes, codes, bytes_eq, if◌then◌else◌, ◌≡◌, refl, sym,
  ap, Result, ok, All,
}
use pgcov.Text.Hex.{encode_hex}
use pgcov.Config.{Config, FloatTests, validate}
use pgcov.Discovery.{DiscoveredFile, FileType, Files, Stat, paths, seen, classify_file}
use pgcov.Discovery.Sources.{AllSources, Distinct}
use pgcov.Database.{PoolConfig, Driver, Session, new_pool, create_temp_database, max_conns_for}
use pgcov.Database.Ready.{Ready, new_pool-Ready}
use pgcov.Database.Temporary.{Balanced, create_temp_database-Balanced}
use pgcov.Text.{has_suffix, to_lower}
use pgcov.Text.Order.{sort_strings, insert_sorted, bytes_leb}
use pgcov.Commands.Patterns.{
  expand_patterns, expand_from, add_matches, sources_of, source_of, explicit_sources,
  generate_coverage_channel,
}
use pgcov.Commands.Patterns.Sources.{AllNamed, Covered, explicit_sources-Good}

abbrev float_tests : FloatTests ℕ
float_tests = record { is_below_0 = λ n. false; is_above_100 = λ n. ltb 100 n }

abbrev run_config : Config ℕ
run_config = record {
  connection_string = codes "host=h";
  search_path = codes ".";
  timeout = 30;
  signal_timeout = 1;
  parallelism = 4;
  setup_files = [];
  source_files = [];
  coverage_file = codes "c.json";
  verbose = false;
  coverage_channel = [];
  fail_under = 80;
}

-- A server of version 15; a pool is its configuration.
abbrev driver : Driver (Unit {0}) (PoolConfig Unit) (List Bytes)
driver = record {
  parse_config = λ text.
      ok (record {
        application_name = [];
        max_conns = 4;
        database = codes "postgres";
        options = tt;
      });
  new_with_config = λ conf w. (ok conf, w);
  config = λ pool. pool;
  query_version = λ pool w. (ok (codes "150004"), w);
  exec = λ pool sql w. (none, sql ∷ w);
  close = λ pool w. w;
  sanitize = λ name. codes "\"" ++ (name ++ codes "\"");
}

abbrev at_start : Session (PoolConfig Unit) (List Bytes)
at_start = record { world = []; log = [] }

run_config_accepted : validate float_tests run_config ≡ none
unfolding validate bytes_eq
run_config_accepted = refl

new_pool-Ready_example : Ready driver run_config at_start (new_pool driver run_config at_start)
new_pool-Ready_example = new_pool-Ready driver run_config at_start float_tests run_config_accepted

-- The parallelism that a configuration may have gives room for two connections per test.
conns_of_four : max_conns_for 4 ≡ 8
conns_of_four = refl

abbrev admin : PoolConfig Unit
admin = record {
  application_name = codes "pgcov";
  max_conns = 8;
  database = codes "postgres";
  options = tt;
}

abbrev random_bytes : Bytes
random_bytes = 0 ∷ 171 ∷ 16 ∷ 255 ∷ []

made_for :
    (conf : PoolConfig Unit) (w w' : List Bytes) (pool : PoolConfig Unit)
    → driver.new_with_config conf w ≡ (ok pool, w')
    → (driver.config pool).database ≡ conf.database
made_for conf w w' pool h = let e : conf ≡ pool = cc in ap (λ p. p.database) (sym e)

create_temp_database-Balanced_example :
    Balanced driver admin
      (codes "20260102_030405")
      at_start
      (create_temp_database driver (codes "20260102_030405") (ok random_bytes) admin at_start)
create_temp_database-Balanced_example =
    create_temp_database-Balanced driver admin (codes "20260102_030405") at_start made_for
      (ok random_bytes)

channel_of_bytes : generate_coverage_channel (ok random_bytes) ≡ ok (codes "pgcov_00ab10ff")
unfolding generate_coverage_channel encode_hex
channel_of_bytes = refl

abbrev files : Files
files = record {
  abs = λ p. ok (codes "/" ++ p);
  stat = λ p. Stat.stat_file;
  walk = λ p. [];
  rel = λ r p. ok p;
  to_slash = λ p. p;
  base = λ p. p;
  dir = λ p. codes "/";
}

-- The pattern `*` matches two files, any other text the file of that name.
abbrev glob : Bytes → Result Bytes (List Bytes)
glob p = if bytes_eq p (codes "*") then ok (codes "b.sql" ∷ codes "a.sql" ∷ []) else ok (p ∷ [])

abbrev read_nothing : Bytes → Result Bytes Bytes
read_nothing p = ok []

abbrev listed : List Bytes
listed = codes "a.sql" ∷ codes "*" ∷ []

abbrev source_at : Bytes → DiscoveredFile
source_at p = record { path = p; relative_path = p; ty = FileType.file_type_source; mod_time = 0 }

-- The second match of the first file is not taken again.
abbrev listed_sources : List DiscoveredFile
listed_sources = source_at (codes "/a.sql") ∷ source_at (codes "/b.sql") ∷ []

listed_found :
    explicit_sources files glob (λ p. 0) read_nothing (codes ".") listed ≡ ok listed_sources
unfolding explicit_sources expand_patterns expand_from add_matches sort_strings insert_sorted
    bytes_leb bytes_eq seen sources_of source_of classify_file has_suffix to_lower
listed_found = refl

explicit_sources-Good_example :
    AllSources listed_sources
    × AllNamed files glob (λ p. 0) read_nothing listed_sources
    × Distinct (paths listed_sources)
    × All (Covered files glob (λ p. 0) read_nothing (paths listed_sources)) listed
explicit_sources-Good_example =
    explicit_sources-Good files glob (λ p. 0) read_nothing (codes ".") listed listed_sources
      listed_found
