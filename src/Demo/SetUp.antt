-- ===== src/Demo/SetUp.antt =====
-- cmd/demo/main.go: `main` up to its first wait, which starts a core and two replicas of it. An exit
-- leaves the databases to the end of the process.
use novig_take_home.Base.{String, ◌≡◌, refl}
use novig_take_home.Base.Int.{ℤ, pos}
use novig_take_home.Base.Errors.{Error, Result, ok, err}
use novig_take_home.Base.Database.{Driver, Opened, failed, opened}
use novig_take_home.Domain.Breaker.{default_breaker_config}
use novig_take_home.Core.EventStore as Events
use novig_take_home.Core.EventStore.Opening as Log
use novig_take_home.Core.Service.State as Core
use novig_take_home.Replica.Store.{Sqlite}
use novig_take_home.Replica.Store.Opening.{effect}
use novig_take_home.Replica.Service.State.{Service, with_defaults}
use novig_take_home.Demo.{
  default_market_id, start_http_server, Started, not_started, running, start_replica,
  replica_config,
}
use novig_take_home.Demo.Cleanup.{IsClean, start_replica-IsClean}

abbrev pub core_config : Core.ServiceConfig
core_config = record {
  breaker = default_breaker_config;
  tick_interval = Core.second;
  window_duration = pos 30_000_000_000;
  default_market_id = default_market_id;
  replica_stale_after = pos 0;
  replica_offline_after = pos 0;
}

-- What is listened on, by the core and by each replica.
pub record Listening : Type 0 where
  pub core : Result String
  pub replica1 : Result String
  pub replica2 : Result String

module _ (events : Events.Sqlite) (sql : Sqlite) (log : Driver events.Db Log.effect)
    (d : Driver sql.Db effect) (path_escape : String → String) (listening : Listening) where
  -- An exit with a log line and an error; or the core and the two replicas with the core's address.
  pub data SetUp : Type 0 where
    exited : String → Error → SetUp
    ready : Core.Service events → String → Service sql → Service sql → SetUp

  unfoldable pub with_replica2 : Core.Service events → String → Service sql → Started sql d → SetUp
  with_replica2 core url replica1 (not_started e db) = exited "start replica2 failed" e
  with_replica2 core url replica1 (running replica2 url2) = ready core url replica1 replica2

  unfoldable pub with_replica1 : Core.Service events → String → Started sql d → SetUp
  unfolding with_replica2 start_replica
  with_replica1 core url (not_started e db) = exited "start replica1 failed" e
  with_replica1 core url (running replica1 url1) =
      with_replica2 core url replica1 (start_replica sql d path_escape "r2" url listening.replica2)

  unfoldable pub with_address : Core.Service events → Result String → SetUp
  unfolding with_replica1 start_replica
  with_address core (err e) = exited "start core server failed" e
  with_address core (ok url) =
      with_replica1 core url (start_replica sql d path_escape "r1" url listening.replica1)

  unfoldable pub with_core : Result (Core.Service events) → SetUp
  unfolding with_address
  with_core (err e) = exited "init core service failed" e
  with_core (ok core) = with_address core (start_http_server listening.core)

  unfoldable pub set_up : ℤ → SetUp
  unfolding with_core Log.new_event_store
  set_up now_ms = elim (Log.new_event_store log (Log.in_memory_dsn path_escape "core_events")) [
    | failed e db ↦ exited "init core store failed" e
    | opened db ↦ with_core (Core.new_service events db core_config now_ms)
  ]

  -- The two replicas that are set up follow the core, under their names.
  abbrev pub Follow : SetUp → Type 0
  Follow (exited line e) = Unit
  Follow (ready core url s1 s2) =
      (s1.cfg ≡ with_defaults (replica_config "r1" url))
      × (s2.cfg ≡ with_defaults (replica_config "r2" url))

  with_replica2-Follow :
      (core : Core.Service events) (url dsn : String) (s : Service sql) (started : Started sql d)
      → s.cfg ≡ with_defaults (replica_config "r1" url)
      → IsClean sql d dsn (replica_config "r2" url) listening.replica2 started
      → Follow (with_replica2 core url s started)
  unfolding with_replica2
  with_replica2-Follow core url dsn s (not_started e db) h clean = tt
  with_replica2-Follow core url dsn s (running s2 url2) h (_, _, _, cfg) = (h, cfg)

  with_replica1-Follow :
      (core : Core.Service events) (url dsn : String) (started : Started sql d)
      → IsClean sql d dsn (replica_config "r1" url) listening.replica1 started
      → Follow (with_replica1 core url started)
  unfolding with_replica1
  with_replica1-Follow core url dsn (not_started e db) clean = tt
  with_replica1-Follow core url dsn (running s url1) (_, _, _, cfg) =
      with_replica2-Follow core url _ s _ cfg
        (start_replica-IsClean sql d path_escape "r2" url listening.replica2)

  with_address-Follow :
      (core : Core.Service events) (address : Result String) → Follow (with_address core address)
  unfolding with_address
  with_address-Follow core (err e) = tt
  with_address-Follow core (ok url) =
      with_replica1-Follow core url _ _
        (start_replica-IsClean sql d path_escape "r1" url listening.replica1)

  with_core-Follow : (made : Result (Core.Service events)) → Follow (with_core made)
  unfolding with_core
  with_core-Follow (err e) = tt
  with_core-Follow (ok core) = with_address-Follow core (start_http_server listening.core)

  opened-Follow :
      (now_ms : ℤ) (store : Opened events.Db)
      → Log.new_event_store log (Log.in_memory_dsn path_escape "core_events") ≡ store
      → Follow (set_up now_ms)
  unfolding set_up
  opened-Follow now_ms (failed e db) h = rw (h, set_up) tt
  opened-Follow now_ms (opened db) h =
      rw (h, set_up) (with_core-Follow (Core.new_service events db core_config now_ms))

  pub set_up-Follow : (now_ms : ℤ) → Follow (set_up now_ms)
  set_up-Follow now_ms = opened-Follow now_ms _ refl
