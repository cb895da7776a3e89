-- ===== src/Binaries/ReplicaMain.antt =====
-- cmd/replica/main.go: `main`. What `ListenAndServe` returns is a parameter; signals, the shutdown, the
-- deferred close and the log lines of a run are left out.
pub mod Starts
use novig_take_home.Base.{String, Option, none, some}
use novig_take_home.Base.Int.{ℤ, pos}
use novig_take_home.Base.Errors.{Error, Result, ok, err}
use novig_take_home.Base.Database.{Driver, Opened, failed, opened}
use novig_take_home.Replica.Store.{Sqlite}
use novig_take_home.Replica.Store.Opening.{effect, in_memory_dsn, new_store}
use novig_take_home.Replica.Service.State.{ServiceConfig, Service, new_service}
use novig_take_home.Binaries.{
  get_env, get_env_int, in_milliseconds, Main, exited, Listened, listen_and_serve,
}

module _ (environ : String → String) where
  abbrev ms_of : String → ℤ → ℤ
  ms_of key fallback = in_milliseconds (get_env_int environ key fallback)

  unfoldable pub replica_config : ServiceConfig
  unfolding get_env get_env_int in_milliseconds
  replica_config = record {
    id = get_env environ "REPLICA_ID" "replica-1";
    core_base_url = get_env environ "CORE_BASE_URL" "http://127.0.0.1:8080";
    reconnect_backoff = ms_of "REPLICA_RECONNECT_BACKOFF_INITIAL_MS" (pos 500);
    reconnect_backoff_max = ms_of "REPLICA_RECONNECT_BACKOFF_MAX_MS" (pos 5_000);
    snapshot_timeout = ms_of "REPLICA_SNAPSHOT_TIMEOUT_MS" (pos 3_000);
    stream_idle_timeout = ms_of "REPLICA_STREAM_IDLE_TIMEOUT_MS" (pos 45_000);
    heartbeat_interval = ms_of "REPLICA_HEARTBEAT_INTERVAL_MS" (pos 2_000);
    heartbeat_timeout = ms_of "REPLICA_HEARTBEAT_TIMEOUT_MS" (pos 2_000);
  }

  unfoldable pub replica_dsn : (String → String) → String
  unfolding get_env in_memory_dsn
  replica_dsn path_escape = in_memory_dsn path_escape (get_env environ "REPLICA_ID" "replica-1")

  module _ (sql : Sqlite) (listen : ℤ → Listened) where
    unfoldable pub serve_replica : Result (Service sql) → Main (Service sql)
    unfolding get_env_int listen_and_serve
    serve_replica (err e) = exited "failed to init replica service" e
    serve_replica (ok s) =
        listen_and_serve listen "replica server failed"
          (get_env_int environ "REPLICA_PORT" (pos 8_081)) s

    unfoldable pub with_store : Opened sql.Db → Main (Service sql)
    unfolding serve_replica replica_config
    with_store (failed e db) = exited "failed to init replica sqlite" e
    with_store (opened db) = serve_replica (new_service sql db replica_config)

    unfoldable pub replica_main : Driver sql.Db effect → (String → String) → Main (Service sql)
    unfolding with_store replica_dsn
    replica_main d path_escape = with_store (new_store d (replica_dsn path_escape))
