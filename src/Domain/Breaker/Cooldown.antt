-- ===== src/Domain/Breaker/Cooldown.antt =====
-- The breaker over time: one market evaluated at a sequence of ticks.
use novig_take_home.Base.{◌≡◌, refl, sym, ap, subst, ◌∙◌, List, [], ◌∷◌, ◌++◌, arith}
use novig_take_home.Base.Int.{ℤ, ◌≤ℤ◌, ◌<ℤ◌, add64}
use novig_take_home.Base.Lists.{All}
use novig_take_home.Domain.Types.{
  MarketState, BreakerConfig, WindowMetrics, market_suspended, status_open, status_suspended,
}
use novig_take_home.Domain.Breaker.{apply_breaker}
use novig_take_home.Domain.Breaker.Outcome.{Normal, status_fields}
use novig_take_home.Domain.Breaker.Coherence.{
  IsCoherent, at_open, at_suspended, apply_breaker-IsCoherent,
}

-- The state after the breaker has been applied at each tick, with that tick's time and metrics.
unfoldable pub apply_ticks : BreakerConfig → MarketState → List (ℤ × WindowMetrics) → MarketState
apply_ticks cfg m [] = m
apply_ticks cfg m ((now, metrics) ∷ ticks) =
    apply_ticks cfg (apply_breaker now m metrics cfg).0 ticks

module _ (cfg : BreakerConfig) where
  stays-status_fields :
      (now : ℤ) (m : MarketState) (metrics : WindowMetrics)
      → m.status ≡ status_suspended
      → now <ℤ m.cooldown_until_unix_ms
      → status_fields (apply_breaker now m metrics cfg).0 ≡ status_fields m
  unfolding apply_breaker
  stays-status_fields now m metrics s h = ground arith

  -- A suspended market keeps its status, its cooldown, its reason and its transition time over any
  -- ticks before the cooldown's end, whatever their metrics and their order.
  pub apply_ticks-before_cooldown :
      (m : MarketState) (ticks : List (ℤ × WindowMetrics))
      → m.status ≡ status_suspended
      → All (λ t. t.0 <ℤ m.cooldown_until_unix_ms) ticks
      → status_fields (apply_ticks cfg m ticks) ≡ status_fields m
  unfolding apply_ticks
  apply_ticks-before_cooldown m [] s h = refl
  apply_ticks-before_cooldown m ((now, metrics) ∷ ticks) s h =
      let keep = stays-status_fields now m metrics s h.0 in
      let m' = (apply_breaker now m metrics cfg).0 in
      let e : m'.cooldown_until_unix_ms ≡ m.cooldown_until_unix_ms = ap (λ f. f.1) keep in
      let rest = subst (λ (c : ℤ). All (λ t. t.0 <ℤ c) ticks) (sym e) h.1 in
      apply_ticks-before_cooldown m' ticks (ap (λ f. f.0) keep ∙ s) rest ∙ keep

  suspended_fields :
      (now : ℤ) (m : MarketState) (metrics : WindowMetrics)
      → (apply_breaker now m metrics cfg).1 ≡ market_suspended
      → let m' = (apply_breaker now m metrics cfg).0 in
        (m'.status ≡ status_suspended) × (m'.cooldown_until_unix_ms ≡ add64 now cfg.cooldown_ms)
  unfolding apply_breaker
  suspended_fields now m metrics e = ground arith

  -- A market that the breaker suspends at some time stays suspended, for the same reason, over any
  -- later ticks whose times lie before that time plus the cooldown (in 64 bits).
  pub suspension_holds :
      (now : ℤ) (m : MarketState) (metrics : WindowMetrics) (ticks : List (ℤ × WindowMetrics))
      → let (m', event, moved) = apply_breaker now m metrics cfg in
        event ≡ market_suspended
        → All (λ t. t.0 <ℤ add64 now cfg.cooldown_ms) ticks
        → ((apply_ticks cfg m' ticks).status ≡ status_suspended)
          × ((apply_ticks cfg m' ticks).last_reason ≡ m'.last_reason)
  suspension_holds now m metrics ticks e h =
      let m' = (apply_breaker now m metrics cfg).0 in
      let (s, c) = suspended_fields now m metrics e in
      let before = subst (λ (k : ℤ). All (λ t. t.0 <ℤ k) ticks) (sym c) h in
      let keep = apply_ticks-before_cooldown m' ticks s before in
      (ap (λ f. f.0) keep ∙ s, ap (λ f. f.2) keep)

  apply_ticks-append :
      (m : MarketState) (ts us : List (ℤ × WindowMetrics))
      → apply_ticks cfg m (ts ++ us) ≡ apply_ticks cfg (apply_ticks cfg m ts) us
  unfolding apply_ticks
  apply_ticks-append m [] us = refl
  apply_ticks-append m ((now, metrics) ∷ ts) us =
      apply_ticks-append (apply_breaker now m metrics cfg).0 ts us

  apply_ticks-IsCoherent :
      (m : MarketState) (ticks : List (ℤ × WindowMetrics))
      → IsCoherent m
      → IsCoherent (apply_ticks cfg m ticks)
  unfolding apply_ticks
  apply_ticks-IsCoherent m [] c = c
  apply_ticks-IsCoherent m ((now, metrics) ∷ ticks) c =
      apply_ticks-IsCoherent (apply_breaker now m metrics cfg).0 ticks
        (apply_breaker-IsCoherent now m metrics cfg c).0

  reopens_next :
      (now : ℤ) (m : MarketState) (metrics : WindowMetrics)
      → IsCoherent m
      → m.cooldown_until_unix_ms ≤ℤ now
      → Normal metrics cfg
      → (apply_ticks cfg m ((now, metrics) ∷ [])).status ≡ status_open
  unfolding apply_ticks apply_breaker
  reopens_next now m metrics (at_open s k r) h n = ground arith
  reopens_next now m metrics (at_suspended s r) h n = ground arith

  -- A coherent market is open after a tick past its cooldown with both signals below their
  -- thresholds, whatever came before that tick.
  pub apply_ticks-reopens :
      (now : ℤ) (m : MarketState) (metrics : WindowMetrics) (ticks : List (ℤ × WindowMetrics))
      → IsCoherent m
      → (apply_ticks cfg m ticks).cooldown_until_unix_ms ≤ℤ now
      → Normal metrics cfg
      → (apply_ticks cfg m (ticks ++ (now, metrics) ∷ [])).status ≡ status_open
  apply_ticks-reopens now m metrics ticks c h n =
      rw (apply_ticks-append m ticks ((now, metrics) ∷ []))
        (reopens_next now (apply_ticks cfg m ticks) metrics (apply_ticks-IsCoherent m ticks c) h n)
