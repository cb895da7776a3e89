-- ===== src/Core/Service/Signals.antt =====
-- internal/core/service.go: the rolling window of signals.
use novig_take_home.Base.{String, List, [], ◌∷◌, ◌++◌, ◌==◌, if◌then◌else◌, string_eq, none, some}
use novig_take_home.Base.Int.{ℤ, pos, leb_ℤ, add64, sub64, int_eq}
use novig_take_home.Base.Map.{Map, get, insert}
use novig_take_home.Domain.{SignalInput, WindowMetrics, SnapshotResponse}
use novig_take_home.Core.EventStore.{Sqlite}
use novig_take_home.Core.Service.State.{Service, SignalPoint, new_market, milliseconds}

-- The loop of `pruneSignalsLocked`.
unfoldable pub points_since : ℤ → List SignalPoint → List SignalPoint
points_since cutoff [] = []
points_since cutoff (point ∷ points) =
    let rest = points_since cutoff points in
    if leb_ℤ cutoff point.ts_unix_ms then point ∷ rest else rest

-- The loop of `metricsLocked`.
unfoldable pub add_points : WindowMetrics → List SignalPoint → WindowMetrics
add_points out [] = out
add_points out (point ∷ points) =
    add_points
      (record {
        bet_count_30s = add64 out.bet_count_30s point.bet_count;
        stake_sum_30s_cents = add64 out.stake_sum_30s_cents point.stake_cents;
        liability_delta_30s_cents = add64 out.liability_delta_30s_cents point.liability_delta_cents;
      })
      points

abbrev zero_metrics : WindowMetrics
zero_metrics = record {
  bet_count_30s = pos 0;
  stake_sum_30s_cents = pos 0;
  liability_delta_30s_cents = pos 0;
}

-- A missing entry reads as nil.
abbrev pub window : Map String (List SignalPoint) → String → List SignalPoint
window m market_id = elim (get m market_id) [ none ↦ [] | some points ↦ points ]

module _ (sql : Sqlite) where
  unfoldable pub ensure_market_exists : String → ℤ → Service sql → Service sql
  ensure_market_exists market_id now_ms s = elim (get s.markets market_id) [
    | some _ ↦ s
    | none ↦ record s { markets = insert market_id (new_market market_id now_ms) s.markets }
  ]

  unfoldable pub prune_signals : String → ℤ → Service sql → Service sql
  unfolding points_since
  prune_signals market_id now_ms s =
      let points = window s.signal_window market_id in
      elim points [
        | [] ↦ s
        | first ∷ rest ↦
            let cutoff = sub64 now_ms (milliseconds s.cfg.window_duration) in
            record s {
              signal_window = insert market_id (points_since cutoff (first ∷ rest)) s.signal_window;
            }
      ]

  unfoldable pub metrics : String → Service sql → WindowMetrics
  unfolding add_points
  metrics market_id s = add_points zero_metrics (window s.signal_window market_id)

  unfoldable pub ingest_signal : SignalInput → ℤ → Service sql → Service sql
  unfolding ensure_market_exists prune_signals
  ingest_signal input now_ms s =
      let ts_unix_ms = if input.ts_unix_ms == pos 0 then now_ms else input.ts_unix_ms in
      let market_id = if input.market_id == "" then s.cfg.default_market_id else input.market_id in
      let s₁ = ensure_market_exists market_id now_ms s in
      let point : SignalPoint = record {
        ts_unix_ms = ts_unix_ms;
        bet_count = input.bet_count;
        stake_cents = input.stake_cents;
        liability_delta_cents = input.liability_delta_cents;
      } in
      let s₂ = record s₁ {
        signal_window =
            insert market_id (window s₁.signal_window market_id ++ point ∷ []) s₁.signal_window;
      } in
      prune_signals market_id now_ms s₂

  unfoldable pub clear_signals : String → ℤ → Service sql → Service sql
  unfolding ensure_market_exists
  clear_signals market_id now_ms s =
      let market_id = if market_id == "" then s.cfg.default_market_id else market_id in
      let s₁ = ensure_market_exists market_id now_ms s in
      record s₁ { signal_window = insert market_id [] s₁.signal_window }

  unfoldable pub snapshot : Service sql → SnapshotResponse
  snapshot s = record { last_seq = s.last_seq; markets = s.markets }
