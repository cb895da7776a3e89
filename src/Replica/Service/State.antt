-- ===== src/Replica/Service/State.antt =====
-- internal/replica/service.go: configuration, state, `NewService`, and the accessors. Durations are
-- in nanoseconds. The HTTP client, the logger, the clock and the random numbers are left out of the
-- configuration: what they yield is an argument of the operations.
use novig_take_home.Base.{
  String, Bool, false, List, [], Option, none, some, ◌==◌, if◌then◌else◌, string_eq,
}
use novig_take_home.Base.Int.{ℤ, pos, ltb_ℤ, leb_ℤ, sub64, int_eq}
use novig_take_home.Base.Errors.{Error, errorf, Result, ok, err}
use novig_take_home.Base.Map.{Map, get}
use novig_take_home.Domain.{MarketState, ReplicationEvent}
use novig_take_home.Replica.Store.{Sqlite, get_checkpoint}

pub record ServiceConfig : Type 0 where
  pub id : String
  pub core_base_url : String
  pub reconnect_backoff : ℤ
  pub reconnect_backoff_max : ℤ
  pub snapshot_timeout : ℤ
  pub stream_idle_timeout : ℤ
  pub heartbeat_interval : ℤ
  pub heartbeat_timeout : ℤ

-- An error is kept as a value in place of its text; `none` is the empty text.
pub record Status : Type 0 where
  pub connected : Bool
  pub bootstrapped : Bool
  pub last_applied_seq : ℤ
  pub core_last_seq : ℤ
  pub lag_seq : ℤ
  pub last_sync_at : ℤ
  pub last_error : Option Error

abbrev pub positive_or : ℤ → ℤ → ℤ
positive_or given default = if leb_ℤ given (pos 0) then default else given

-- The defaults that `NewService` fills in.
unfoldable pub with_defaults : ServiceConfig → ServiceConfig
with_defaults cfg =
    let backoff =
      if cfg.reconnect_backoff == pos 0 then pos 500_000_000 else cfg.reconnect_backoff in
    let max = positive_or cfg.reconnect_backoff_max (pos 5_000_000_000) in
    record {
      id = if cfg.id == "" then "replica-1" else cfg.id;
      core_base_url = cfg.core_base_url;
      reconnect_backoff = backoff;
      reconnect_backoff_max = if ltb_ℤ max backoff then backoff else max;
      snapshot_timeout = positive_or cfg.snapshot_timeout (pos 3_000_000_000);
      stream_idle_timeout = positive_or cfg.stream_idle_timeout (pos 45_000_000_000);
      heartbeat_interval = positive_or cfg.heartbeat_interval (pos 2_000_000_000);
      heartbeat_timeout = positive_or cfg.heartbeat_timeout (pos 2_000_000_000);
    }

module _ (sql : Sqlite) where
  pub record Service : Type 0 where
    pub store : sql.Db
    pub cfg : ServiceConfig
    pub markets : Map String MarketState
    pub history : Map String (List ReplicationEvent)
    pub connected : Bool
    pub bootstrapped : Bool
    pub last_applied_seq : ℤ
    pub core_last_seq : ℤ
    pub last_sync_at_ms : ℤ
    pub last_error : Option Error
    pub reconnect_attempts : ℤ

  abbrev pub restored : ServiceConfig → sql.Db → ℤ → Service
  restored cfg store checkpoint = record {
    store = store;
    cfg = cfg;
    markets = [];
    history = [];
    connected = false;
    bootstrapped = false;
    last_applied_seq = checkpoint;
    core_last_seq = pos 0;
    last_sync_at_ms = pos 0;
    last_error = none;
    reconnect_attempts = pos 0;
  }

  unfoldable pub new_service : sql.Db → ServiceConfig → Result Service
  unfolding with_defaults
  new_service db given =
      let cfg = with_defaults given in
      if cfg.core_base_url == ""
      then err (errorf "core base url required" [])
      else let (checkpoint, store) = get_checkpoint sql db in
        elim checkpoint [ err e ↦ err e | ok seq ↦ ok (restored cfg store seq) ]

  unfoldable pub update_core_last_seq : ℤ → Service → Service
  update_core_last_seq seq s = record s {
    core_last_seq = if ltb_ℤ s.core_last_seq seq then seq else s.core_last_seq;
  }

  -- `none` is a nil error.
  unfoldable pub set_last_error : Option Error → Service → Service
  set_last_error none s = s
  set_last_error (some e) s = record s { last_error = some e }

  abbrev pub clear_last_error : Service → Service
  clear_last_error s = record s { last_error = none }

  abbrev pub reset_reconnect_backoff : Service → Service
  reset_reconnect_backoff s = record s { reconnect_attempts = pos 0 }

  abbrev pub set_connected : Bool → Service → Service
  set_connected v s = record s { connected = v }

  abbrev pub market_by_id : String → Service → Option MarketState
  market_by_id id s = get s.markets id

  -- A missing key gives the empty slice.
  abbrev pub history_of : Map String (List ReplicationEvent) → String → List ReplicationEvent
  history_of m id = elim (get m id) [ none ↦ [] | some events ↦ events ]

  abbrev pub market_history : String → Service → List ReplicationEvent
  market_history id s = history_of s.history id

  abbrev pub lag_of : ℤ → ℤ
  lag_of lag = if ltb_ℤ lag (pos 0) then pos 0 else lag

  unfoldable pub status : Service → Status
  status s = record {
    connected = s.connected;
    bootstrapped = s.bootstrapped;
    last_applied_seq = s.last_applied_seq;
    core_last_seq = s.core_last_seq;
    lag_seq = lag_of (sub64 s.core_last_seq s.last_applied_seq);
    last_sync_at = s.last_sync_at_ms;
    last_error = s.last_error;
  }
