-- ===== src/Database/Ready.antt =====
-- What `NewPool` may return.
use pgcov.Base.{
  ℕ, ◌*◌, ◌≤◌, ◌<◌, ◌||◌, true, Option, none, some, ◌∷◌, ltb, Bytes, Result, ok, err, ◌≡◌, refl,
  arith, inl, inr, Bool-cases,
}
use pgcov.Decimal.{half, is_positive, is_negative, atoi}
use pgcov.Config.{Config, FloatTests, validate}
use pgcov.Config.Valid.{IsValid, validate-IsValid}
use pgcov.Database.{
  PoolConfig, Driver, Action, Session, ConnectionError, max_conns_for, pool_config, with_number,
  with_version, with_pool, with_config, new_pool,
}

-- Two connections for each of the tests that run at once, and no more than 200.
max_conns_enough :
    (p : ℕ) → is_positive p ≡ true → p ≤ 100 → (2 * p ≤ max_conns_for p) × (max_conns_for p ≤ 200)
max_conns_enough p a b = (ground (arith, a), ground (arith, a))

module _ {O P W : Type 0} (driver : Driver O P W) {F : Type 0} (c : Config F)
    (s : Session P W) where
  -- No pool was opened; or one was, and it was closed again; or the pool is open, its configuration
  -- is that of the connection string with `max_conns` from twice the parallelism to 200, and the
  -- version that the server gave is 130000 or more.
  pub data Ready : Result ConnectionError P × Session P W → Type 0 where
    not_opened : (e : ConnectionError) (w : W) → Ready (err e, record { world = w; log = s.log })
    closed_again :
        (e : ConnectionError) (pool : P) (w : W)
        → Ready (err e, record { world = w; log = Action.closed pool ∷ Action.opened pool ∷ s.log })
    connected :
        (pool : P) (w w1 : W) (conf : PoolConfig O) (text : Bytes) (version : ℕ)
        → driver.parse_config c.connection_string ≡ ok conf
        → driver.new_with_config (pool_config driver c conf) s.world ≡ (ok pool, w)
        → 2 * c.parallelism ≤ (pool_config driver c conf).max_conns
        → (pool_config driver c conf).max_conns ≤ 200
        → driver.query_version pool w ≡ (ok text, w1)
        → atoi text ≡ some version
        → 130000 ≤ version
        → version < half
        → Ready (ok pool, record { world = w1; log = Action.opened pool ∷ s.log })

  module _ (positive : is_positive c.parallelism ≡ true) (bound : c.parallelism ≤ 100) where
    module _ (conf : PoolConfig O)
        (parsed : driver.parse_config c.connection_string ≡ ok conf) where
      with_number-Ready :
          (pool : P) (text : Bytes) (w w1 : W) (number : Option ℕ)
          → driver.new_with_config (pool_config driver c conf) s.world ≡ (ok pool, w)
          → driver.query_version pool w ≡ (ok text, w1)
          → atoi text ≡ number
          → Ready (
              with_number driver pool text number
                (record { world = w1; log = Action.opened pool ∷ s.log }))
      with_number-Ready pool text w w1 none n q a =
          Ready.closed_again (ConnectionError.cannot_parse_version text) pool _
      with_number-Ready pool text w w1 (some version) n q a =
          elim (Bool-cases (is_negative version || ltb version 130000)) [
            | inl old ↦ rw old (Ready.closed_again (ConnectionError.not_supported version) pool _)
            | inr new ↦
                let (low, high) = max_conns_enough c.parallelism positive bound in
                rw new (
                  Ready.connected pool w w1 conf text version parsed n low high q a
                    (ground (arith, new)) (ground (arith, new)))
          ]

      with_version-Ready :
          (pool : P) (w : W) (r : Result Bytes Bytes × W)
          → driver.new_with_config (pool_config driver c conf) s.world ≡ (ok pool, w)
          → driver.query_version pool w ≡ r
          → Ready (with_version driver pool r (Action.opened pool ∷ s.log))
      with_version-Ready pool w (err e, w1) n q =
          Ready.closed_again (ConnectionError.cannot_query_version e) pool _
      with_version-Ready pool w (ok text, w1) n q =
          with_number-Ready pool text w w1 (atoi text) n q refl

      with_pool-Ready :
          (r : Result Bytes P × W)
          → driver.new_with_config (pool_config driver c conf) s.world ≡ r
          → Ready (with_pool driver r s.log)
      with_pool-Ready (err e, w) n = Ready.not_opened (ConnectionError.cannot_create_pool e) w
      with_pool-Ready (ok pool, w) n =
          with_version-Ready pool w (driver.query_version pool w) n refl

    with_config-Ready :
        (r : Result Bytes (PoolConfig O))
        → driver.parse_config c.connection_string ≡ r
        → Ready (with_config driver c r s)
    with_config-Ready (err e) h = Ready.not_opened (ConnectionError.invalid_configuration e) s.world
    with_config-Ready (ok conf) h = with_pool-Ready conf h _ refl

  -- For a configuration that Validate accepts, NewPool fails with no pool left open, or returns one
  -- that has two connections for each test that runs at once and at most 200, on a server whose
  -- version parses as a number from 130000 on.
  pub new_pool-Ready :
      (tests : FloatTests F) → validate tests c ≡ none → Ready (new_pool driver c s)
  unfolding new_pool
  new_pool-Ready tests h =
      let valid : IsValid tests c = (validate-IsValid tests c).0 h in
      with_config-Ready valid.parallel_positive valid.parallel_bound _ refl
