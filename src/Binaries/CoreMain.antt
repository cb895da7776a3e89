-- ===== src/Binaries/CoreMain.antt =====
-- cmd/core/main.go: `main`. What `ListenAndServe` returns is a parameter; signals, the shutdown, the
-- deferred close and the log lines of a run are left out.
use novig_take_home.Base.{String}
use novig_take_home.Base.Int.{ℤ, pos}
use novig_take_home.Base.Errors.{Result, ok, err}
use novig_take_home.Base.Database.{Driver, Opened, failed, opened}
use novig_take_home.Domain.Breaker.{default_breaker_config}
use novig_take_home.Core.EventStore.{Sqlite}
use novig_take_home.Core.EventStore.Opening.{effect, in_memory_dsn, new_event_store}
use novig_take_home.Core.Service.State.{ServiceConfig, Service, new_service, second}
use novig_take_home.Binaries.{
  get_env, get_env_int, in_milliseconds, Main, exited, Listened, listen_and_serve,
}

module _ (environ : String → String) where
  unfoldable pub core_config : ServiceConfig
  unfolding get_env get_env_int in_milliseconds
  core_config = record {
    breaker = default_breaker_config;
    tick_interval = second;
    window_duration = pos 30_000_000_000;
    default_market_id = get_env environ "DEFAULT_MARKET_ID" "market-news-001";
    replica_stale_after =
        in_milliseconds (get_env_int environ "REPLICA_STALE_AFTER_MS" (pos 5_000));
    replica_offline_after =
        in_milliseconds (get_env_int environ "REPLICA_OFFLINE_AFTER_MS" (pos 15_000));
  }

  unfoldable pub core_dsn : (String → String) → String
  unfolding get_env in_memory_dsn
  core_dsn path_escape = in_memory_dsn path_escape (get_env environ "CORE_DB_NAME" "core_events")

  module _ (sql : Sqlite) (listen : ℤ → Listened) where
    unfoldable pub serve_core : Result (Service sql) → Main (Service sql)
    unfolding get_env_int listen_and_serve
    serve_core (err e) = exited "failed to init core service" e
    serve_core (ok s) =
        listen_and_serve listen "core server failed" (get_env_int environ "CORE_PORT" (pos 8_080)) s

    unfoldable pub with_store : ℤ → Opened sql.Db → Main (Service sql)
    unfolding serve_core core_config
    with_store now_ms (failed e db) = exited "failed to init event store" e
    with_store now_ms (opened db) = serve_core (new_service sql db core_config now_ms)

    unfoldable pub core_main : Driver sql.Db effect → (String → String) → ℤ → Main (Service sql)
    unfolding with_store core_dsn
    core_main d path_escape now_ms = with_store now_ms (new_event_store d (core_dsn path_escape))
