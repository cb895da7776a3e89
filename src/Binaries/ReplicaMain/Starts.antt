-- ===== src/Binaries/ReplicaMain/Starts.antt =====
-- How a replica starts, by its environment, its database and its server.
use novig_take_home.Base.{
  nonempty_test, String, ◌≡◌, ◌≢◌, refl, Option, ◌⊎◌, inl, inr, Bool-cases, arith, ◌==◌, string_eq,
  eq_iff, if◌then◌else◌,
}
use novig_take_home.Base.Int.{ℤ, pos, ◌<ℤ◌, ◌≤ℤ◌, int_eq}
use novig_take_home.Base.Errors.{Error, ok, err, Result-cases}
use novig_take_home.Base.Database.{Driver, Opened, failed, opened}
use novig_take_home.Replica.Store.{Sqlite, get_checkpoint}
use novig_take_home.Replica.Store.Opening.{effect, new_store}
use novig_take_home.Replica.Service.State.{
  ServiceConfig, Service, with_defaults, new_service, positive_or,
}
use novig_take_home.Binaries.{
  get_env, get_env_int, Main, exited, shut_down, Listened, nil, server_closed, not_served,
  listen_and_serve,
}
use novig_take_home.Binaries.ReplicaMain.{
  replica_config, replica_dsn, serve_replica, with_store, replica_main,
}

-- No timer or ticker is made with a duration that it panics on or that is over at once, and the
-- first delay is no more than the largest.
pub record IsConfigured (cfg : ServiceConfig) : Type 0 where
  pub named : cfg.id ≢ ""
  pub has_core : cfg.core_base_url ≢ ""
  pub ordered : cfg.reconnect_backoff ≤ℤ cfg.reconnect_backoff_max
  pub backs_off : cfg.reconnect_backoff ≢ pos 0
  pub snapshots : pos 0 <ℤ cfg.snapshot_timeout
  pub idles : pos 0 <ℤ cfg.stream_idle_timeout
  pub beats : pos 0 <ℤ cfg.heartbeat_interval
  pub gives_up : pos 0 <ℤ cfg.heartbeat_timeout

positive_or-positive : (given default : ℤ) → pos 0 <ℤ default → pos 0 <ℤ positive_or given default
positive_or-positive given default h = ground arith

nonempty_lem : (v fallback : String) → fallback ≢ "" → (if v == "" then fallback else v) ≢ ""
nonempty_lem v fallback h = elim (Bool-cases (v == "")) [
  | inl unset ↦ rw unset h
  | inr set ↦ rw set (λ e. let x = (eq_iff v "").1 e in cc (x, set))
]

get_env-nonempty :
    (environ : String → String) (key fallback : String)
    → fallback ≢ ""
    → get_env environ key fallback ≢ ""
unfolding get_env
get_env-nonempty environ key fallback h = nonempty_lem (environ key) fallback h

-- The defaults make any configuration with a core's address a good one.
with_defaults-IsConfigured :
    (cfg : ServiceConfig) → cfg.core_base_url ≢ "" → IsConfigured (with_defaults cfg)
unfolding with_defaults
with_defaults-IsConfigured cfg has_core = record {
  named = nonempty_lem cfg.id "replica-1" (λ h. cc h);
  has_core = has_core;
  ordered = ground arith;
  backs_off = ground arith;
  snapshots = positive_or-positive cfg.snapshot_timeout _ (omega arith);
  idles = positive_or-positive cfg.stream_idle_timeout _ (omega arith);
  beats = positive_or-positive cfg.heartbeat_interval _ (omega arith);
  gives_up = positive_or-positive cfg.heartbeat_timeout _ (omega arith);
}

module _ (environ : String → String) (sql : Sqlite) (listen : ℤ → Listened) where
  abbrev replica_port : ℤ
  replica_port = get_env_int environ "REPLICA_PORT" (pos 8_081)

  -- An exit is the database's fault, when it is opened or when the checkpoint is read, or the
  -- server's; and a service that was served is configured and has the checkpoint that was read.
  pub data Starts (store : Opened sql.Db) : Main (Service sql) → Type 0 where
    no_store :
        (e : Error) (left : Option sql.Db)
        → store ≡ failed e left
        → Starts store (exited "failed to init replica sqlite" e)
    no_checkpoint :
        (db : sql.Db) (e : Error)
        → store ≡ opened db
        → (get_checkpoint sql db).0 ≡ err e
        → Starts store (exited "failed to init replica service" e)
    no_server :
        (db : sql.Db) (seq : ℤ) (e : Error)
        → store ≡ opened db
        → (get_checkpoint sql db).0 ≡ ok seq
        → listen replica_port ≡ not_served e
        → Starts store (exited "replica server failed" e)
    serves :
        (db : sql.Db) (s : Service sql)
        → store ≡ opened db
        → (get_checkpoint sql db).0 ≡ ok s.last_applied_seq
        → IsConfigured s.cfg
        → (listen replica_port ≡ nil) ⊎ (listen replica_port ≡ server_closed)
        → Starts store (shut_down replica_port s)

  has_core_lem : (with_defaults (replica_config environ)).core_base_url ≢ ""
  unfolding with_defaults replica_config
  has_core_lem = get_env-nonempty environ "CORE_BASE_URL" "http://127.0.0.1:8080" (λ h. cc h)

  configured_lem : IsConfigured (with_defaults (replica_config environ))
  unfolding with_defaults
  configured_lem = with_defaults-IsConfigured (replica_config environ) has_core_lem

  serve_replica-Starts :
      (db : sql.Db) (s : Service sql)
      → (get_checkpoint sql db).0 ≡ ok s.last_applied_seq
      → IsConfigured s.cfg
      → (end : Listened) → listen replica_port ≡ end
      → Starts (opened db) (serve_replica environ sql listen (ok s))
  unfolding serve_replica listen_and_serve
  serve_replica-Starts db s e good nil h =
      rw (h, listen_and_serve) (serves db s refl e good (inl h))
  serve_replica-Starts db s e good server_closed h =
      rw (h, listen_and_serve) (serves db s refl e good (inr h))
  serve_replica-Starts db s e good (not_served x) h =
      rw (h, listen_and_serve) (no_server db s.last_applied_seq x refl e h)

  opened-Starts : (db : sql.Db) → Starts (opened db) (with_store environ sql listen (opened db))
  unfolding with_store new_service serve_replica
  opened-Starts db =
      let cfg = with_defaults (replica_config environ) in
      let present = nonempty_test cfg.core_base_url has_core_lem in
      elim (Result-cases (get_checkpoint sql db).0) [
        | inl (seq, e) ↦
            rw (present, e, with_store, new_service)
              (serve_replica-Starts db _ e configured_lem (listen replica_port) refl)
        | inr (x, e) ↦
            rw (present, e, with_store, new_service, serve_replica) (no_checkpoint db x refl e)
      ]

  with_store-Starts : (store : Opened sql.Db) → Starts store (with_store environ sql listen store)
  unfolding with_store
  with_store-Starts (failed e db) = no_store e db refl
  with_store-Starts (opened db) = opened-Starts db

  -- In whatever environment the replica is started, its main exits only with an error of its
  -- database, when that is opened or its checkpoint is read, or with one of its server other than
  -- http.ErrServerClosed, each under its own log line. Else it has served, on the port of the
  -- environment, a service that has this checkpoint, a name and a core's address; whose ticker and
  -- timeouts have durations of more than zero; and whose first delay is not zero and no more than
  -- the largest one.
  pub replica_main-Starts :
      (d : Driver sql.Db effect) (path_escape : String → String)
      → Starts
          (new_store d (replica_dsn environ path_escape))
          (replica_main environ sql listen d path_escape)
  unfolding replica_main
  replica_main-Starts d path_escape =
      with_store-Starts (new_store d (replica_dsn environ path_escape))
