-- ===== src/Domain/Breaker/Outcome.antt =====
-- What the circuit breaker may do, as the rules of the README state it, and `apply_breaker` against
-- that description.
use novig_take_home.Base.{
  String, Bool, true, false, ◌≡◌, refl, subst, ◌↔◌, ◌⊎◌, inl, inr, arith, Bool-cases,
}
use novig_take_home.Base.Int.{ℤ, pos, ◌≤ℤ◌, ◌<ℤ◌, leb_ℤ, add64}
use novig_take_home.Domain.Types.{
  MarketState, BreakerConfig, WindowMetrics, EventType, market_updated, market_suspended,
  market_reopened, BreakerReason, reason_none, bet_rate_spike, liability_spike, MarketStatus,
  status_unset, status_open, status_suspended, other_status,
}
use novig_take_home.Domain.Breaker.{apply_breaker}

-- A market with no status counts as open.
abbrev pub CountsAsOpen : MarketState → Type 0
CountsAsOpen m = (m.status ≡ status_unset) ⊎ (m.status ≡ status_open)

-- The reason for which the metrics trip the breaker: the bet rate goes first.
pub data Trips (metrics : WindowMetrics) (cfg : BreakerConfig) (reason : BreakerReason)
    : Type 0 where
  bet_rate :
      cfg.bet_count_threshold ≤ℤ metrics.bet_count_30s
      → reason ≡ bet_rate_spike
      → Trips metrics cfg reason
  liability :
      metrics.bet_count_30s <ℤ cfg.bet_count_threshold
      → cfg.liability_threshold_cents ≤ℤ metrics.liability_delta_30s_cents
      → reason ≡ liability_spike
      → Trips metrics cfg reason

abbrev pub Normal : WindowMetrics → BreakerConfig → Type 0
Normal metrics cfg =
    (metrics.bet_count_30s <ℤ cfg.bet_count_threshold)
    × (metrics.liability_delta_30s_cents <ℤ cfg.liability_threshold_cents)

-- Status, cooldown, reason and time of the last transition.
abbrev pub status_fields : MarketState → MarketStatus × ℤ × BreakerReason × ℤ
status_fields m = (m.status, m.cooldown_until_unix_ms, m.last_reason, m.last_transition_unix_ms)

-- The market's identity stays, and its metrics are the new ones.
abbrev pub Measured : MarketState → WindowMetrics → MarketState → Type 0
Measured prev metrics next =
    (next.market_id ≡ prev.market_id)
    × (next.bet_count_30s ≡ metrics.bet_count_30s)
    × (next.stake_sum_30s_cents ≡ metrics.stake_sum_30s_cents)
    × (next.liability_delta_30s_cents ≡ metrics.liability_delta_30s_cents)

module _ (now : ℤ) (prev : MarketState) (metrics : WindowMetrics) (cfg : BreakerConfig) where
  pub data Outcome (next : MarketState) (event : EventType) (moved : Bool) : Type 0 where
    suspends :
        (reason : BreakerReason)
        → CountsAsOpen prev
        → Trips metrics cfg reason
        → Measured prev metrics next
        → status_fields next ≡ (status_suspended, add64 now cfg.cooldown_ms, reason, now)
        → event ≡ market_suspended
        → moved ≡ true
        → Outcome next event moved
    stays_open :
        CountsAsOpen prev
        → Normal metrics cfg
        → Measured prev metrics next
        → status_fields next ≡ (
          status_open, prev.cooldown_until_unix_ms, prev.last_reason, prev.last_transition_unix_ms,
        )
        → event ≡ market_updated
        → moved ≡ false
        → Outcome next event moved
    reopens :
        prev.status ≡ status_suspended
        → prev.cooldown_until_unix_ms ≤ℤ now
        → Normal metrics cfg
        → Measured prev metrics next
        → status_fields next ≡ (status_open, pos 0, reason_none, now)
        → event ≡ market_reopened
        → moved ≡ true
        → Outcome next event moved
    stays_suspended :
        prev.status ≡ status_suspended
        → (now <ℤ prev.cooldown_until_unix_ms)
          ⊎ (cfg.bet_count_threshold ≤ℤ metrics.bet_count_30s)
          ⊎ (cfg.liability_threshold_cents ≤ℤ metrics.liability_delta_30s_cents)
        → Measured prev metrics next
        → status_fields next ≡ status_fields prev
        → event ≡ market_updated
        → moved ≡ false
        → Outcome next event moved
    -- A status that is no constant of the type is left alone.
    passes_by :
        (s : String)
        → prev.status ≡ other_status s
        → Measured prev metrics next
        → status_fields next ≡ status_fields prev
        → event ≡ market_updated
        → moved ≡ false
        → Outcome next event moved

data Signals (metrics : WindowMetrics) (cfg : BreakerConfig) : Type 0 where
  fast : cfg.bet_count_threshold ≤ℤ metrics.bet_count_30s → Signals metrics cfg
  liable :
      metrics.bet_count_30s <ℤ cfg.bet_count_threshold
      → cfg.liability_threshold_cents ≤ℤ metrics.liability_delta_30s_cents
      → Signals metrics cfg
  calm : Normal metrics cfg → Signals metrics cfg

signals : (metrics : WindowMetrics) (cfg : BreakerConfig) → Signals metrics cfg
signals metrics cfg = elim (Bool-cases (leb_ℤ cfg.bet_count_threshold metrics.bet_count_30s)) [
  | inl e ↦ fast (ground arith)
  | inr e ↦
      elim (Bool-cases (leb_ℤ cfg.liability_threshold_cents metrics.liability_delta_30s_cents)) [
        | inl f ↦ liable (ground arith) (ground arith)
        | inr f ↦ calm (ground arith, ground arith)
      ]
]

module _ (now : ℤ) (prev : MarketState) (metrics : WindowMetrics) (cfg : BreakerConfig) where
  abbrev Result : Type 0
  Result = let r = apply_breaker now prev metrics cfg in Outcome now prev metrics cfg r.0 r.1 r.2

  outcome_open : CountsAsOpen prev → Signals metrics cfg → Result
  unfolding apply_breaker
  outcome_open o (fast h) =
      suspends bet_rate_spike o (bet_rate h refl)
        (ground arith, ground arith, ground arith, ground arith) (ground arith) (ground arith)
        (ground arith)
  outcome_open o (liable b h) =
      suspends liability_spike o (liability b h refl)
        (ground arith, ground arith, ground arith, ground arith) (ground arith) (ground arith)
        (ground arith)
  outcome_open o (calm h) =
      stays_open o h (ground arith, ground arith, ground arith, ground arith) (ground arith)
        (ground arith) (ground arith)

  outcome_waiting : prev.status ≡ status_suspended → now <ℤ prev.cooldown_until_unix_ms → Result
  unfolding apply_breaker
  outcome_waiting e h =
      stays_suspended e (inl h) (ground arith, ground arith, ground arith, ground arith)
        (ground arith) (ground arith) (ground arith)

  outcome_elapsed :
      prev.status ≡ status_suspended
      → prev.cooldown_until_unix_ms ≤ℤ now
      → Signals metrics cfg
      → Result
  unfolding apply_breaker
  outcome_elapsed e h (fast b) =
      stays_suspended e (inr (inl b)) (ground arith, ground arith, ground arith, ground arith)
        (ground arith) (ground arith) (ground arith)
  outcome_elapsed e h (liable b l) =
      stays_suspended e (inr (inr l)) (ground arith, ground arith, ground arith, ground arith)
        (ground arith) (ground arith) (ground arith)
  outcome_elapsed e h (calm n) =
      reopens e h n (ground arith, ground arith, ground arith, ground arith) (ground arith)
        (ground arith) (ground arith)

  outcome_suspended : prev.status ≡ status_suspended → Result
  outcome_suspended e = elim (Bool-cases (leb_ℤ prev.cooldown_until_unix_ms now)) [
    | inl c ↦ outcome_elapsed e (ground arith) (signals metrics cfg)
    | inr c ↦ outcome_waiting e (ground arith)
  ]

  outcome_cases : (s : MarketStatus) → prev.status ≡ s → Result
  unfolding apply_breaker
  outcome_cases status_unset e = outcome_open (inl e) (signals metrics cfg)
  outcome_cases status_open e = outcome_open (inr e) (signals metrics cfg)
  outcome_cases status_suspended e = outcome_suspended e
  outcome_cases (other_status s) e =
      passes_by s e (ground arith, ground arith, ground arith, ground arith) (ground arith)
        (ground arith) (ground arith)

  -- Every call of the breaker has one of the outcomes that the rules describe.
  pub apply_breaker-Outcome : Result
  apply_breaker-Outcome = outcome_cases prev.status refl

  -- An outcome that the rules allow is the one that the breaker returns.
  pub Outcome-apply_breaker :
      (next : MarketState) (event : EventType) (moved : Bool)
      → Outcome now prev metrics cfg next event moved
      → apply_breaker now prev metrics cfg ≡ (next, event, moved)
  unfolding apply_breaker
  Outcome-apply_breaker next event moved (suspends reason o (bet_rate t r) d f e m) = ground arith
  Outcome-apply_breaker next event moved (suspends reason o (liability b t r) d f e m) =
      ground arith
  Outcome-apply_breaker next event moved (stays_open o n d f e m) = ground arith
  Outcome-apply_breaker next event moved (reopens s c n d f e m) = ground arith
  Outcome-apply_breaker next event moved (stays_suspended s w d f e m) = ground arith
  Outcome-apply_breaker next event moved (passes_by s p d f e m) = ground arith

  -- The breaker returns a result exactly when the rules allow it, on every branch: suspension for
  -- the first signal at its threshold, reopening after the cooldown with both signals below their
  -- thresholds, and in each other case an update that changes the metrics alone.
  pub apply_breaker_iff :
      (next : MarketState) (event : EventType) (moved : Bool)
      → Outcome now prev metrics cfg next event moved
        ↔ (apply_breaker now prev metrics cfg ≡ (next, event, moved))
  apply_breaker_iff next event moved = (
    Outcome-apply_breaker next event moved,
    λ e.
        subst (λ (r : MarketState × EventType × Bool). Outcome now prev metrics cfg r.0 r.1 r.2) e
          apply_breaker-Outcome,
  )
