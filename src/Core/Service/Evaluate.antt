-- ===== src/Core/Service/Evaluate.antt =====
-- internal/core/service.go: `evaluateAll`. The order in which the range over the market
-- identifiers visits them is an argument, and with each visit the identifier that uuid.NewString
-- gives and the clock's reading, if an event is emitted.
use novig_take_home.Base.{
  String, Bool, true, false, List, [], ◌∷◌, if◌then◌else◌, string_eq, Option, none, some,
}
use novig_take_home.Base.Int.{ℤ, pos}
use novig_take_home.Base.Map.{get, insert}
use novig_take_home.Domain.{MarketState, market_updated, reason_none, status_unset}
use novig_take_home.Domain.Equality.{is_equal}
use novig_take_home.Domain.Breaker.{apply_breaker}
use novig_take_home.Core.EventStore.{Sqlite}
use novig_take_home.Core.Service.State.{Service}
use novig_take_home.Core.Service.Signals.{ensure_market_exists, prune_signals, metrics}
use novig_take_home.Domain.Json.{Json}
use novig_take_home.Core.Service.Emit.{emit_event}
use novig_take_home.Core.Service.Replicas.{refresh_replica_health}

pub record Visit : Type 0 where
  pub market_id : String
  pub event_id : String
  pub ts_unix_ms : ℤ

-- A missing entry reads as the zero value.
abbrev pub market_or_zero : Option MarketState → MarketState
market_or_zero (some m) = m
market_or_zero none = record {
  market_id = "";
  status = status_unset;
  bet_count_30s = pos 0;
  stake_sum_30s_cents = pos 0;
  liability_delta_30s_cents = pos 0;
  cooldown_until_unix_ms = pos 0;
  last_reason = reason_none;
  last_transition_unix_ms = pos 0;
}

module _ (sql : Sqlite) (json : Json) where
  -- The state is written only if the event was persisted.
  abbrev pub commit : String → MarketState → Option (Bool × Service sql) → Option (Service sql)
  commit market_id next none = none
  commit market_id next (some (false, s)) = some s
  commit market_id next (some (true, s)) =
      some (record s { markets = insert market_id next s.markets })

  -- The body of the loop from the state `prev` that the market has. `none` is a panic.
  unfoldable pub advance_market : Visit → ℤ → MarketState → Service sql → Option (Service sql)
  unfolding metrics
  advance_market visit now_ms prev s =
      let market_id = visit.market_id in
      let (next, transition_type, transitioned) =
        apply_breaker now_ms prev (metrics sql market_id s) s.cfg.breaker in
      if is_equal prev next
      then some s
      else (let event_type = if transitioned then transition_type else market_updated in
          commit market_id next
            (emit_event sql json event_type market_id next visit.event_id visit.ts_unix_ms s))

  unfoldable pub evaluate_market : Visit → ℤ → Service sql → Option (Service sql)
  unfolding ensure_market_exists prune_signals advance_market
  evaluate_market visit now_ms s =
      let market_id = visit.market_id in
      let s₂ = prune_signals sql market_id now_ms (ensure_market_exists sql market_id now_ms s) in
      advance_market visit now_ms (market_or_zero (get s₂.markets market_id)) s₂

  unfoldable pub evaluate_each : List Visit → ℤ → Service sql → Option (Service sql)
  unfolding evaluate_market
  evaluate_each [] now_ms s = some s
  evaluate_each (visit ∷ visits) now_ms s = elim (evaluate_market visit now_ms s) [
    | none ↦ none
    | some s' ↦ evaluate_each visits now_ms s'
  ]

  unfoldable pub evaluate_all : List Visit → ℤ → Service sql → Option (Service sql)
  unfolding evaluate_each
  evaluate_all visits now_ms s = elim (evaluate_each visits now_ms s) [
    | none ↦ none
    | some s' ↦ some (refresh_replica_health sql now_ms s')
  ]
