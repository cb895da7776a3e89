-- ===== src/Core/Service/State.antt =====
-- internal/core/service.go: configuration, state and `NewService`. Durations are in nanoseconds.
-- The clock's reading, `cfg.Now().UnixMilli()`, is an argument of each operation; loggers are left
-- out.
use novig_take_home.Base.{◌/◌, suc, String, List, [], ◌∷◌, ◌==◌, if◌then◌else◌, string_eq}
use novig_take_home.Base.Int.{ℤ, pos, negsuc, ltb_ℤ, sub_ℕ, int_eq}
use novig_take_home.Base.Errors.{wrap, Result, ok, err}
use novig_take_home.Base.Map.{Map}
use novig_take_home.Domain.{MarketState, BreakerConfig, reason_none, status_open}
use novig_take_home.Domain.Breaker.{default_breaker_config}
use novig_take_home.Core.EventStore.{Sqlite, last_seq}
use novig_take_home.Core.Hub.{SseHub, new_sse_hub}
use novig_take_home.Core.ReplicaHealth.{ReplicaHealthRecord}

pub record ServiceConfig : Type 0 where
  pub breaker : BreakerConfig
  pub tick_interval : ℤ
  pub window_duration : ℤ
  pub default_market_id : String
  pub replica_stale_after : ℤ
  pub replica_offline_after : ℤ

-- `Duration.Milliseconds()`, which truncates towards zero.
unfoldable pub milliseconds : ℤ → ℤ
milliseconds (pos n) = pos (n / 1_000_000)
milliseconds (negsuc n) = sub_ℕ 0 (suc n / 1_000_000)

abbrev pub second : ℤ
second = pos 1_000_000_000

abbrev or_default : ℤ → ℤ → ℤ
or_default given default = if given == pos 0 then default else given

-- The defaults that `NewService` fills in.
unfoldable pub with_defaults : ServiceConfig → ServiceConfig
with_defaults cfg =
    let stale = or_default cfg.replica_stale_after (pos 5_000_000_000) in
    let offline = or_default cfg.replica_offline_after (pos 15_000_000_000) in
    record {
      breaker =
          if cfg.breaker.bet_count_threshold == pos 0 then default_breaker_config else cfg.breaker;
      tick_interval = or_default cfg.tick_interval second;
      window_duration = or_default cfg.window_duration (pos 30_000_000_000);
      default_market_id =
          if cfg.default_market_id == "" then "market-news-001" else cfg.default_market_id;
      replica_stale_after = stale;
      replica_offline_after = if ltb_ℤ offline stale then stale else offline;
    }

pub record SignalPoint : Type 0 where
  pub ts_unix_ms : ℤ
  pub bet_count : ℤ
  pub stake_cents : ℤ
  pub liability_delta_cents : ℤ

-- A market as it is first seen.
abbrev pub new_market : String → ℤ → MarketState
new_market market_id now_ms = record {
  market_id = market_id;
  status = status_open;
  bet_count_30s = pos 0;
  stake_sum_30s_cents = pos 0;
  liability_delta_30s_cents = pos 0;
  cooldown_until_unix_ms = pos 0;
  last_reason = reason_none;
  last_transition_unix_ms = now_ms;
}

module _ (sql : Sqlite) where
  pub record Service : Type 0 where
    pub store : sql.Db
    pub hub : SseHub
    pub cfg : ServiceConfig
    pub last_seq : ℤ
    pub markets : Map String MarketState
    pub signal_window : Map String (List SignalPoint)
    pub replicas : Map String ReplicaHealthRecord

  abbrev pub initial_service : ServiceConfig → ℤ → sql.Db → ℤ → Service
  initial_service cfg now_ms store last = record {
    store = store;
    hub = new_sse_hub;
    cfg = cfg;
    last_seq = last;
    markets = (cfg.default_market_id, new_market cfg.default_market_id now_ms) ∷ [];
    signal_window = [];
    replicas = [];
  }

  unfoldable pub start_service : ServiceConfig → ℤ → sql.Db → Result ℤ → Result Service
  start_service cfg now_ms store (err e) = err (wrap "load last seq: %w" [] e)
  start_service cfg now_ms store (ok last) = ok (initial_service cfg now_ms store last)

  unfoldable pub new_service : sql.Db → ServiceConfig → ℤ → Result Service
  unfolding start_service with_defaults
  new_service db cfg now_ms =
      let (last, store) = last_seq sql db in start_service (with_defaults cfg) now_ms store last
