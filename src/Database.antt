-- ===== src/Database.antt =====
-- The connection pool of internal/database/pool.go and the temporary databases of
-- internal/database/tempdb.go. Package pgxpool and the server are a parameter that carries a world
-- along; what is opened, closed and executed is logged.
pub mod Ready
pub mod Temporary
use pgcov.Base.{
  ℕ, ◌*◌, ◌%◌, ◌^◌, Bool, ◌&&◌, ◌||◌, Option, none, some, List, ◌∷◌, ◌++◌, ltb, if◌then◌else◌,
  Bytes, codes, Result, ok, err,
}
use pgcov.Decimal.{half, modulus, is_negative, atoi}
use pgcov.Text.Hex.{encode_hex}
use pgcov.Config.{Config}

-- What the code reads or sets of a `pgxpool.Config`; `O` is the rest of it. `max_conns` is the 32-bit
-- pattern of an `int32`.
pub record PoolConfig (O : Type 0) : Type 0 where
  pub application_name : Bytes
  pub max_conns : ℕ
  pub database : Bytes
  pub options : O

-- The calls of pgxpool and pgx; a pool is a `P`.
pub record Driver (O P W : Type 0) : Type 0 where
  pub parse_config : Bytes → Result Bytes (PoolConfig O)
  pub new_with_config : PoolConfig O → W → Result Bytes P × W
  pub config : P → PoolConfig O
  pub query_version : P → W → Result Bytes Bytes × W
  pub exec : P → Bytes → W → Option Bytes × W
  pub close : P → W → W
  pub sanitize : Bytes → Bytes

pub data Action (P : Type 0) : Type 0 where
  opened closed : P → Action P
  executed : P → Bytes → Action P

-- The last action comes first.
pub record Session (P W : Type 0) : Type 0 where
  pub world : W
  pub log : List (Action P)

-- `ConnectionError`, one constructor for each that `NewPool` makes.
pub data ConnectionError : Type 0 where
  invalid_configuration cannot_create_pool cannot_query_version : Bytes → ConnectionError
  cannot_parse_version : Bytes → ConnectionError
  not_supported : ℕ → ConnectionError

pub data TempError : Type 0 where
  no_random_suffix cannot_create_database cannot_connect : Bytes → TempError

-- `config.Parallelism > 1` is a test of an `int`, and `int32(config.Parallelism * 2)` wraps twice.
abbrev pub max_conns_for : ℕ → ℕ
max_conns_for parallelism =
    if ltb 1 parallelism && ltb parallelism half then parallelism * 2 % modulus % 2 ^ 32 else 4

abbrev pub temp_name : Bytes → Bytes → Bytes
temp_name timestamp random = codes "pgcov_test_" ++ (timestamp ++ (codes "_" ++ encode_hex random))

module _ {O P W : Type 0} (driver : Driver O P W) where
  abbrev pub closing : P → Session P W → Session P W
  closing pool s = record { world = driver.close pool s.world; log = Action.closed pool ∷ s.log }

  abbrev pub pool_config : {F : Type 0} → Config F → PoolConfig O → PoolConfig O
  pool_config config conf = record conf {
    application_name = codes "pgcov";
    max_conns = max_conns_for config.parallelism;
  }

  -- From the number of the version on.
  abbrev pub with_number :
      P → Bytes → Option ℕ → Session P W → Result ConnectionError P × Session P W
  with_number pool text none s = (err (ConnectionError.cannot_parse_version text), closing pool s)
  with_number pool text (some version) s =
      if is_negative version || ltb version 130000
      then (err (ConnectionError.not_supported version), closing pool s)
      else (ok pool, s)

  abbrev pub with_version :
      P → Result Bytes Bytes × W → List (Action P) → Result ConnectionError P × Session P W
  with_version pool (err e, w) log =
      (err (ConnectionError.cannot_query_version e), closing pool (record { world = w; log = log }))
  with_version pool (ok text, w) log =
      with_number pool text (atoi text) (record { world = w; log = log })

  -- From the new pool on.
  abbrev pub with_pool :
      Result Bytes P × W → List (Action P) → Result ConnectionError P × Session P W
  with_pool (err e, w) log =
      (err (ConnectionError.cannot_create_pool e), record { world = w; log = log })
  with_pool (ok pool, w) log =
      with_version pool (driver.query_version pool w) (Action.opened pool ∷ log)

  abbrev pub with_config :
      {F : Type 0}
      → Config F
      → Result Bytes (PoolConfig O)
      → Session P W
      → Result ConnectionError P × Session P W
  with_config config (err e) s = (err (ConnectionError.invalid_configuration e), s)
  with_config config (ok conf) s =
      with_pool (driver.new_with_config (pool_config config conf) s.world) s.log

  unfoldable pub new_pool :
      {F : Type 0} → Config F → Session P W → Result ConnectionError P × Session P W
  new_pool config s = with_config config (driver.parse_config config.connection_string) s

  abbrev pub create_text : Bytes → Bytes
  create_text name = codes "CREATE DATABASE " ++ driver.sanitize name

  abbrev pub drop_text : Bytes → Bytes
  drop_text name = codes "DROP DATABASE IF EXISTS " ++ driver.sanitize name

  abbrev pub run_sql : P → Bytes → Session P W → Option Bytes × Session P W
  run_sql pool sql s =
      let (e, w) = driver.exec pool sql s.world in
      (e, record { world = w; log = Action.executed pool sql ∷ s.log })

  -- From the pool of the new database on.
  abbrev pub with_temp_pool :
      Bytes → P → Result Bytes P × W → List (Action P) → Result TempError P × Session P W
  with_temp_pool name admin (err e, w) log = (
    err (TempError.cannot_connect e),
    (run_sql admin (drop_text name) (record { world = w; log = log })).1,
  )
  with_temp_pool name admin (ok pool, w) log =
      (ok pool, record { world = w; log = Action.opened pool ∷ log })

  abbrev pub with_database :
      Bytes → P → Option Bytes × Session P W → Result TempError P × Session P W
  with_database name admin (some e, s) = (err (TempError.cannot_create_database e), s)
  with_database name admin (none, s) =
      with_temp_pool name admin
        (driver.new_with_config (record (driver.config admin) { database = name }) s.world) s.log

  -- `timestamp` is the formatted time, `random` what `rand.Read` gives.
  unfoldable pub create_temp_database :
      Bytes → Result Bytes Bytes → P → Session P W → Result TempError P × Session P W
  create_temp_database timestamp (err e) admin s = (err (TempError.no_random_suffix e), s)
  create_temp_database timestamp (ok random) admin s =
      with_database (temp_name timestamp random) admin
        (run_sql admin (create_text (temp_name timestamp random)) s)

  unfoldable pub destroy_temp_database : P → Option P → Session P W → Option Bytes × Session P W
  destroy_temp_database admin none s = (none, s)
  destroy_temp_database admin (some temp) s =
      run_sql admin (drop_text (driver.config temp).database ++ codes " WITH (FORCE)")
        (record { world = driver.close temp s.world; log = Action.closed temp ∷ s.log })
