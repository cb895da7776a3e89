-- ===== src/Domain/Equality.antt =====
-- `MarketState.IsEqual` of internal/domain/state.go.
use novig_take_home.Base.{Bool, true, ◌≡◌, ◌↔◌, ◌&&◌, arith, ◌==◌, eq_iff, string_eq}
use novig_take_home.Base.Int.{int_eq, int_beq_iff}
use novig_take_home.Domain.Types.{
  MarketState, status_eq, reason_eq, same_status_iff, same_reason_iff,
}

unfoldable pub is_equal : MarketState → MarketState → Bool
is_equal m other =
    m.market_id == other.market_id
    && m.status == other.status
    && m.bet_count_30s == other.bet_count_30s
    && m.stake_sum_30s_cents == other.stake_sum_30s_cents
    && m.liability_delta_30s_cents == other.liability_delta_30s_cents
    && m.cooldown_until_unix_ms == other.cooldown_until_unix_ms
    && m.last_reason == other.last_reason
    && m.last_transition_unix_ms == other.last_transition_unix_ms

-- Two market states compare as equal exactly when they are equal in every field.
pub is_equal_iff : (m other : MarketState) → (is_equal m other ≡ true) ↔ (m ≡ other)
unfolding is_equal
is_equal_iff m o = ground (
  arith,
  eq_iff m.market_id o.market_id,
  same_status_iff m.status o.status,
  int_beq_iff m.bet_count_30s o.bet_count_30s,
  int_beq_iff m.stake_sum_30s_cents o.stake_sum_30s_cents,
  int_beq_iff m.liability_delta_30s_cents o.liability_delta_30s_cents,
  int_beq_iff m.cooldown_until_unix_ms o.cooldown_until_unix_ms,
  same_reason_iff m.last_reason o.last_reason,
  int_beq_iff m.last_transition_unix_ms o.last_transition_unix_ms,
)
