-- ===== src/Domain/Breaker.antt =====
-- internal/domain/breaker.go. The proofs are in the modules below.
pub mod Outcome
pub mod Coherence
pub mod Cooldown
mod Tests
use novig_take_home.Base.{Bool, true, false, ◌&&◌, ◌==◌, if◌then◌else◌}
use novig_take_home.Base.Int.{ℤ, pos, ltb_ℤ, leb_ℤ, add64}
use novig_take_home.Domain.Types.{
  MarketState, BreakerConfig, WindowMetrics, EventType, market_updated, market_suspended,
  market_reopened, BreakerReason, reason_none, bet_rate_spike, liability_spike, status_unset,
  status_open, status_suspended, status_eq,
}

abbrev pub default_breaker_config : BreakerConfig
default_breaker_config = record {
  bet_count_threshold = pos 120;
  liability_threshold_cents = pos 2_000_000;
  cooldown_ms = pos 60_000;
}

-- The first trigger reason, and whether the metrics require a suspension.
unfoldable pub suspension_reason : WindowMetrics → BreakerConfig → BreakerReason × Bool
suspension_reason metrics cfg =
    if leb_ℤ cfg.bet_count_threshold metrics.bet_count_30s
    then (bet_rate_spike, true)
    else if leb_ℤ cfg.liability_threshold_cents metrics.liability_delta_30s_cents
    then (liability_spike, true)
    else (reason_none, false)

unfoldable pub suspend_market : MarketState → ℤ → BreakerReason → BreakerConfig → MarketState
suspend_market state now_unix_ms reason cfg = record state {
  status = status_suspended;
  cooldown_until_unix_ms = add64 now_unix_ms cfg.cooldown_ms;
  last_reason = reason;
  last_transition_unix_ms = now_unix_ms;
}

unfoldable pub can_reopen_market : ℤ → MarketState → WindowMetrics → BreakerConfig → Bool
can_reopen_market now_unix_ms state metrics cfg =
    let cooldown_elapsed = leb_ℤ state.cooldown_until_unix_ms now_unix_ms in
    let signals_normalized =
      ltb_ℤ metrics.bet_count_30s cfg.bet_count_threshold
      && ltb_ℤ metrics.liability_delta_30s_cents cfg.liability_threshold_cents in
    cooldown_elapsed && signals_normalized

-- `next` as it stands before the transitions: the new metrics, and the status set if it was empty.
unfoldable pub with_metrics : MarketState → WindowMetrics → MarketState
with_metrics prev metrics = record prev {
  status = if prev.status == status_unset then status_open else prev.status;
  bet_count_30s = metrics.bet_count_30s;
  stake_sum_30s_cents = metrics.stake_sum_30s_cents;
  liability_delta_30s_cents = metrics.liability_delta_30s_cents;
}

unfoldable pub apply_breaker :
    ℤ → MarketState → WindowMetrics → BreakerConfig → MarketState × EventType × Bool
unfolding suspension_reason suspend_market can_reopen_market with_metrics
apply_breaker now_unix_ms prev metrics cfg =
    let next = with_metrics prev metrics in
    let (reason, should_suspend) = suspension_reason metrics cfg in
    if next.status == status_open
    then (if should_suspend
        then (suspend_market next now_unix_ms reason cfg, market_suspended, true)
        else (next, market_updated, false))
    else if next.status == status_suspended && can_reopen_market now_unix_ms next metrics cfg
    then (
      record next {
        status = status_open;
        cooldown_until_unix_ms = pos 0;
        last_reason = reason_none;
        last_transition_unix_ms = now_unix_ms;
      },
      market_reopened,
      true,
    )
    else (next, market_updated, false)
