-- ===== src/Domain/Types.antt =====
-- internal/domain/event.go, state.go and breaker.go: constants and types. A string that is none of
-- a type's constants is kept by the last constructor.
use novig_take_home.Base.{
  String, Bool, true, false, ◌≡◌, ◌↔◌, arith, eq_iff, ◌==◌, Comparable, string_eq,
}
use novig_take_home.Base.Int.{ℤ}
use novig_take_home.Base.Map.{Map}

pub data EventType : Type 0 where
  market_updated market_suspended market_reopened : EventType
  other_event : String → EventType

pub data MarketStatus : Type 0 where
  -- the empty string
  status_unset : MarketStatus
  status_open status_suspended : MarketStatus
  other_status : String → MarketStatus

pub data BreakerReason : Type 0 where
  -- the empty string
  reason_none : BreakerReason
  bet_rate_spike liability_spike : BreakerReason
  other_reason : String → BreakerReason

abbrev pub same_status : MarketStatus → MarketStatus → Bool
same_status status_unset status_unset = true
same_status status_open status_open = true
same_status status_suspended status_suspended = true
same_status (other_status s) (other_status t) = s == t
same_status _ _ = false

abbrev pub same_reason : BreakerReason → BreakerReason → Bool
same_reason reason_none reason_none = true
same_reason bet_rate_spike bet_rate_spike = true
same_reason liability_spike liability_spike = true
same_reason (other_reason s) (other_reason t) = s == t
same_reason _ _ = false

status_text : MarketStatus → String
status_text (other_status s) = s
status_text _ = ""

reason_text : BreakerReason → String
reason_text (other_reason s) = s
reason_text _ = ""

pub same_status_iff : (a b : MarketStatus) → (same_status a b ≡ true) ↔ (a ≡ b)
unfolding status_text
same_status_iff a b = ground (arith, eq_iff (status_text a) (status_text b))

pub same_reason_iff : (a b : BreakerReason) → (same_reason a b ≡ true) ↔ (a ≡ b)
unfolding reason_text
same_reason_iff a b = ground (arith, eq_iff (reason_text a) (reason_text b))

instance abbrev pub status_eq : Comparable MarketStatus
status_eq = record { equals = same_status; equals_iff = same_status_iff }

instance abbrev pub reason_eq : Comparable BreakerReason
reason_eq = record { equals = same_reason; equals_iff = same_reason_iff }

pub record MarketState : Type 0 where
  pub market_id : String
  pub status : MarketStatus
  pub bet_count_30s : ℤ
  pub stake_sum_30s_cents : ℤ
  pub liability_delta_30s_cents : ℤ
  pub cooldown_until_unix_ms : ℤ
  pub last_reason : BreakerReason
  pub last_transition_unix_ms : ℤ

-- The payload is raw JSON, as text.
pub record ReplicationEvent : Type 0 where
  pub seq : ℤ
  pub event_id : String
  pub ts_unix_ms : ℤ
  pub event_type : EventType
  pub market_id : String
  pub payload : String

pub record SnapshotResponse : Type 0 where
  pub last_seq : ℤ
  pub markets : Map String MarketState

pub record SignalInput : Type 0 where
  pub market_id : String
  pub bet_count : ℤ
  pub stake_cents : ℤ
  pub liability_delta_cents : ℤ
  pub ts_unix_ms : ℤ

pub record BreakerConfig : Type 0 where
  pub bet_count_threshold : ℤ
  pub liability_threshold_cents : ℤ
  pub cooldown_ms : ℤ

pub record WindowMetrics : Type 0 where
  pub bet_count_30s : ℤ
  pub stake_sum_30s_cents : ℤ
  pub liability_delta_30s_cents : ℤ
