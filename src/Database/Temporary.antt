-- ===== src/Database/Temporary.antt =====
-- The life of a temporary database.
use pgcov.Base.{none, some, ◌∷◌, ◌++◌, Option, Bytes, codes, Result, ok, err, ◌≡◌, refl, ap}
use pgcov.Database.{
  PoolConfig, Driver, Action, Session, TempError, temp_name, create_text, drop_text, with_temp_pool,
  with_database, create_temp_database, destroy_temp_database,
}

module _ {O P W : Type 0} (driver : Driver O P W) (admin : P) (timestamp : Bytes)
    (s : Session P W) where
  -- The ways in which the creation may end: without a statement; with CREATE DATABASE alone, which
  -- failed; with the database created, not connected to and dropped; or with an open pool, after
  -- which the destruction closes this pool and drops the database of the same name.
  pub data Balanced : Result TempError P × Session P W → Type 0 where
    not_begun : (e : TempError) → Balanced (err e, s)
    not_created :
        (e : TempError) (cause : Bytes) (random : Bytes) (w : W)
        → driver.exec admin (create_text driver (temp_name timestamp random)) s.world
          ≡ (some cause, w)
        → Balanced (
          err e,
          record {
            world = w;
            log = Action.executed admin (create_text driver (temp_name timestamp random)) ∷ s.log;
          },
        )
    dropped_again :
        (e : TempError) (random : Bytes) (w : W)
        → Balanced (
          err e,
          record {
            world = w;
            log =
                Action.executed admin (drop_text driver (temp_name timestamp random))
                ∷ Action.executed admin (create_text driver (temp_name timestamp random))
                ∷ s.log;
          },
        )
    created :
        (random : Bytes) (pool : P) (s' : Session P W)
        → s'.log
          ≡ Action.opened pool
            ∷ Action.executed admin (create_text driver (temp_name timestamp random))
            ∷ s.log
        → (destroy_temp_database driver admin (some pool) s').1.log
          ≡ Action.executed admin
              (drop_text driver (temp_name timestamp random) ++ codes " WITH (FORCE)")
            ∷ Action.closed pool
            ∷ s'.log
        → Balanced (ok pool, s')

  -- `Config` of a pool names the database that the pool was made for.
  module _
      (names : (conf : PoolConfig O) (w w' : W) (pool : P)
        → driver.new_with_config conf w ≡ (ok pool, w')
        → (driver.config pool).database ≡ conf.database) where
    with_temp_pool-Balanced :
        (random : Bytes) (w : W) (r : Result Bytes P × W)
        → driver.new_with_config
            (record (driver.config admin) { database = temp_name timestamp random })
            w
          ≡ r
        → Balanced (
            with_temp_pool driver
              (temp_name timestamp random)
              admin
              r
              (Action.executed admin (create_text driver (temp_name timestamp random)) ∷ s.log))
    unfolding destroy_temp_database
    with_temp_pool-Balanced random w (err e, w') h =
        Balanced.dropped_again (TempError.cannot_connect e) random _
    with_temp_pool-Balanced random w (ok pool, w') h =
        let name = temp_name timestamp random in
        let s' : Session P W = record {
          world = w';
          log = Action.opened pool ∷ Action.executed admin (create_text driver name) ∷ s.log;
        } in
        Balanced.created random pool s' refl (
          ap
            (λ n.
              Action.executed admin (drop_text driver n ++ codes " WITH (FORCE)")
              ∷ Action.closed pool
              ∷ s'.log)
            (names _ w w' pool h))

    with_database-Balanced :
        (random : Bytes) (r : Option Bytes × W)
        → driver.exec admin (create_text driver (temp_name timestamp random)) s.world ≡ r
        → Balanced (
            with_database driver (temp_name timestamp random) admin (
              r.0,
              record {
                world = r.1;
                log =
                    Action.executed admin (create_text driver (temp_name timestamp random)) ∷ s.log;
              },
            ))
    with_database-Balanced random (some e, w) h =
        Balanced.not_created (TempError.cannot_create_database e) e random w h
    with_database-Balanced random (none, w) h = with_temp_pool-Balanced random w _ refl

    -- Where the configuration of a pool names the database that the pool was made for: a creation
    -- that fails leaves no pool open and drops the database if CREATE DATABASE succeeded, and after
    -- one that succeeds DestroyTempDatabase closes the pool and drops the database of that name.
    pub create_temp_database-Balanced :
        (random : Result Bytes Bytes)
        → Balanced (create_temp_database driver timestamp random admin s)
    unfolding create_temp_database
    create_temp_database-Balanced (err e) = Balanced.not_begun (TempError.no_random_suffix e)
    create_temp_database-Balanced (ok random) = with_database-Balanced random _ refl
