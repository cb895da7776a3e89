-- ===== src/Domain/Breaker/Tests.antt =====
-- Runs of the breaker at concrete inputs.
use novig_take_home.Base.{◌≡◌, refl, ◌↔◌, true, List, [], ◌∷◌, arith}
use novig_take_home.Base.Int.{ℤ, pos, negsuc, ◌+ℤ◌, int64, add64}
use novig_take_home.Domain.Types.{
  MarketState, WindowMetrics, market_suspended, reason_none, bet_rate_spike, status_open,
  status_suspended,
}
use novig_take_home.Domain.Equality.{is_equal, is_equal_iff}
use novig_take_home.Domain.Breaker.{apply_breaker, default_breaker_config}
use novig_take_home.Domain.Breaker.Outcome.{Outcome, apply_breaker_iff, status_fields}
use novig_take_home.Domain.Breaker.Coherence.{
  IsCoherent, at_open, Announces, apply_breaker-IsCoherent,
}
use novig_take_home.Domain.Breaker.Cooldown.{
  apply_ticks, apply_ticks-before_cooldown, suspension_holds, apply_ticks-reopens,
}

abbrev open_market : MarketState
open_market = record {
  market_id = "m1";
  status = status_open;
  bet_count_30s = pos 0;
  stake_sum_30s_cents = pos 0;
  liability_delta_30s_cents = pos 0;
  cooldown_until_unix_ms = pos 0;
  last_reason = reason_none;
  last_transition_unix_ms = pos 0;
}

abbrev spike : WindowMetrics
spike = record {
  bet_count_30s = pos 144;
  stake_sum_30s_cents = pos 360_000;
  liability_delta_30s_cents = pos 2_400_000;
}

abbrev calm : WindowMetrics
calm = record {
  bet_count_30s = pos 0;
  stake_sum_30s_cents = pos 0;
  liability_delta_30s_cents = negsuc 41;
}

abbrev suspended_market : MarketState
suspended_market = record {
  market_id = "m1";
  status = status_suspended;
  bet_count_30s = pos 144;
  stake_sum_30s_cents = pos 360_000;
  liability_delta_30s_cents = pos 2_400_000;
  cooldown_until_unix_ms = pos 61_000;
  last_reason = bet_rate_spike;
  last_transition_unix_ms = pos 1_000;
}

spike_suspends :
    apply_breaker (pos 1_000) open_market spike default_breaker_config
    ≡ (suspended_market, market_suspended, true)
unfolding apply_breaker add64 int64 ◌+ℤ◌
spike_suspends = refl

compares_equal : (is_equal open_market open_market ≡ true) ↔ (open_market ≡ open_market)
compares_equal = is_equal_iff open_market open_market

apply_breaker_iff_example :
    Outcome
      (pos 1_000)
      open_market
      spike
      default_breaker_config
      suspended_market
      market_suspended
      true
    ↔ (apply_breaker (pos 1_000) open_market spike default_breaker_config
        ≡ (suspended_market, market_suspended, true))
apply_breaker_iff_example =
    apply_breaker_iff (pos 1_000) open_market spike default_breaker_config suspended_market
      market_suspended true

apply_breaker-IsCoherent_example :
    let (next, event, moved) = apply_breaker (pos 1_000) open_market spike default_breaker_config in
    IsCoherent next × Announces event next.status
apply_breaker-IsCoherent_example =
    apply_breaker-IsCoherent (pos 1_000) open_market spike default_breaker_config
      (at_open refl refl refl)

abbrev early_ticks : List (ℤ × WindowMetrics)
early_ticks = (pos 2_000, calm) ∷ (pos 60_999, spike) ∷ []

apply_ticks-before_cooldown_example :
    status_fields (apply_ticks default_breaker_config suspended_market early_ticks)
    ≡ status_fields suspended_market
apply_ticks-before_cooldown_example =
    apply_ticks-before_cooldown default_breaker_config suspended_market early_ticks refl
      (omega arith)

suspension_holds_example :
    let m' = (apply_breaker (pos 1_000) open_market spike default_breaker_config).0 in
    ((apply_ticks default_breaker_config m' early_ticks).status ≡ status_suspended)
    × ((apply_ticks default_breaker_config m' early_ticks).last_reason ≡ m'.last_reason)
unfolding apply_breaker add64 int64 ◌+ℤ◌
suspension_holds_example =
    suspension_holds default_breaker_config (pos 1_000) open_market spike early_ticks refl
      (omega arith)

apply_ticks-reopens_example :
    (apply_ticks default_breaker_config open_market
      ((pos 1_000, spike) ∷ (pos 61_000, calm) ∷ [])).status
    ≡ status_open
unfolding apply_ticks apply_breaker add64 int64 ◌+ℤ◌
apply_ticks-reopens_example =
    apply_ticks-reopens default_breaker_config (pos 61_000) open_market calm
      ((pos 1_000, spike) ∷ []) (at_open refl refl refl) (omega arith) (omega arith)
