-- ===== src/Domain/Breaker/Coherence.antt =====
-- An invariant of the breaker: the status fields of a market agree with one another, and the event
-- agrees with the state that it announces.
use novig_take_home.Base.{Bool, ◌≡◌, ◌⊎◌, arith, if◌then◌else◌}
use novig_take_home.Base.Int.{ℤ, pos}
use novig_take_home.Domain.Types.{
  MarketState, BreakerConfig, WindowMetrics, EventType, market_updated, market_suspended,
  market_reopened, other_event, MarketStatus, reason_none, bet_rate_spike, liability_spike,
  status_open, status_suspended,
}
use novig_take_home.Domain.Breaker.{apply_breaker}
use novig_take_home.Domain.Breaker.Outcome.{
  Outcome, suspends, stays_open, reopens, stays_suspended, passes_by, bet_rate, liability,
  apply_breaker-Outcome,
}

-- An open market has no cooldown and no reason; a suspended one has a reason.
pub data IsCoherent (m : MarketState) : Type 0 where
  at_open :
      m.status ≡ status_open
      → m.cooldown_until_unix_ms ≡ pos 0
      → m.last_reason ≡ reason_none
      → IsCoherent m
  at_suspended :
      m.status ≡ status_suspended
      → (m.last_reason ≡ bet_rate_spike) ⊎ (m.last_reason ≡ liability_spike)
      → IsCoherent m

-- What an event type says of the status that comes with it.
abbrev pub Announces : EventType → MarketStatus → Type 0
Announces market_updated s = (s ≡ status_open) ⊎ (s ≡ status_suspended)
Announces market_suspended s = s ≡ status_suspended
Announces market_reopened s = s ≡ status_open
Announces (other_event e) s = ⊥

module _ (now : ℤ) (prev : MarketState) (metrics : WindowMetrics) (cfg : BreakerConfig) where
  Outcome-IsCoherent :
      (next : MarketState) (event : EventType) (moved : Bool)
      → IsCoherent prev
      → Outcome now prev metrics cfg next event moved
      → IsCoherent next × Announces event next.status
  Outcome-IsCoherent next event moved c (suspends r o (bet_rate t q) d f e m) =
      (at_suspended (ground arith) (ground arith), ground arith)
  Outcome-IsCoherent next event moved c (suspends r o (liability b t q) d f e m) =
      (at_suspended (ground arith) (ground arith), ground arith)
  Outcome-IsCoherent next event moved (at_open s k r) (stays_open o n d f e m) =
      (at_open (ground arith) (ground arith) (ground arith), ground arith)
  Outcome-IsCoherent next event moved (at_suspended s r) (stays_open o n d f e m) =
      absurd (ground arith)
  Outcome-IsCoherent next event moved c (reopens s k n d f e m) =
      (at_open (ground arith) (ground arith) (ground arith), ground arith)
  Outcome-IsCoherent next event moved (at_open s k r) (stays_suspended p w d f e m) =
      absurd (ground arith)
  Outcome-IsCoherent next event moved (at_suspended s r) (stays_suspended p w d f e m) =
      (at_suspended (ground arith) (ground arith), ground arith)
  Outcome-IsCoherent next event moved (at_open s k r) (passes_by p w d f e m) =
      absurd (ground arith)
  Outcome-IsCoherent next event moved (at_suspended s r) (passes_by p w d f e m) =
      absurd (ground arith)

  -- From a coherent market the breaker returns a coherent one, and an event type that announces
  -- the new status.
  pub apply_breaker-IsCoherent :
      IsCoherent prev
      → let (next, event, moved) = apply_breaker now prev metrics cfg in
        IsCoherent next × Announces event next.status
  apply_breaker-IsCoherent c =
      Outcome-IsCoherent _ _ _ c (apply_breaker-Outcome now prev metrics cfg)

  -- The breaker keeps a market's identity, and names an update where nothing transitioned.
  pub apply_breaker_names :
      let (next, event, moved) = apply_breaker now prev metrics cfg in
      (next.market_id ≡ prev.market_id) × ((if moved then event else market_updated) ≡ event)
  unfolding apply_breaker
  apply_breaker_names = ground arith
