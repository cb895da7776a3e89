-- ===== src/Core/Http/Spike.antt =====
-- What the spike scenario does to the window of its market.
use novig_take_home.Base.{
  ℕ, zero, suc, ◌+◌, String, false, ◌≡◌, ◌≢◌, refl, sym, ap, ◌∙◌, subst, List, [], ◌∷◌, ◌++◌, arith,
  inl, inr, ◌==◌, string_eq, eq_iff, Option-cases,
}
use novig_take_home.Base.Int.{ℤ, pos, int_eq, sub64, add64, int64, ◌+ℤ◌, ◌≤ℤ◌}
use novig_take_home.Base.Map.{Map, get, insert, get-insert_self}
use novig_take_home.Domain.{MarketState, status_open, status_suspended, status_eq}
use novig_take_home.Domain.Breaker.{apply_breaker, default_breaker_config}
use novig_take_home.Core.EventStore.{Sqlite}
use novig_take_home.Core.Service.State.{Service, SignalPoint, milliseconds}
use novig_take_home.Core.Service.Signals.{
  points_since, add_points, window, ensure_market_exists, prune_signals, metrics, ingest_signal,
}
use novig_take_home.Core.Http.{spike_signal, spike_loop, run_spike_scenario}

abbrev spike_point : ℤ → SignalPoint
spike_point now_ms = record {
  ts_unix_ms = now_ms;
  bet_count = pos 6;
  stake_cents = pos 15_000;
  liability_delta_cents = pos 100_000;
}

abbrev spike_points : ℤ → ℕ → List SignalPoint
spike_points now_ms zero = []
spike_points now_ms (suc k) = spike_point now_ms ∷ spike_points now_ms k

spike_points-append :
    (now_ms : ℤ) (k : ℕ)
    → spike_points now_ms k ++ spike_point now_ms ∷ [] ≡ spike_points now_ms (suc k)
spike_points-append now_ms zero = refl
spike_points-append now_ms (suc k) = ap (◌∷◌ (spike_point now_ms)) (spike_points-append now_ms k)

points_since-all :
    (cutoff now_ms : ℤ) (k : ℕ)
    → cutoff ≤ℤ now_ms
    → points_since cutoff (spike_points now_ms k) ≡ spike_points now_ms k
unfolding points_since
points_since-all cutoff now_ms zero h = refl
points_since-all cutoff now_ms (suc k) h = ground (arith, points_since-all cutoff now_ms k h, h)

module _ (sql : Sqlite) where
  ensure_keeps :
      (market_id : String) (now_ms : ℤ) (s : Service sql)
      → ((ensure_market_exists sql market_id now_ms s).signal_window ≡ s.signal_window)
        × ((ensure_market_exists sql market_id now_ms s).cfg ≡ s.cfg)
  unfolding ensure_market_exists
  ensure_keeps market_id now_ms s = elim (Option-cases (get s.markets market_id)) [
    | inl missing ↦ rw (missing, ensure_market_exists) (refl, refl)
    | inr (m, found) ↦ rw (found, ensure_market_exists) (refl, refl)
  ]

  prune_lem :
      (market_id : String) (t : ℤ) (first : SignalPoint) (rest : List SignalPoint) (s : Service sql)
      → window s.signal_window market_id ≡ first ∷ rest
      → prune_signals sql market_id t s ≡ record s {
        signal_window =
            insert market_id
              (points_since (sub64 t (milliseconds s.cfg.window_duration)) (first ∷ rest))
              s.signal_window;
      }
  unfolding prune_signals
  prune_lem market_id t first rest s h = rw (h, prune_signals) refl

  window-insert :
      (market_id : String) (points : List SignalPoint) (m : Map String (List SignalPoint))
      → window (insert market_id points m) market_id ≡ points
  window-insert market_id points m = rw (get-insert_self market_id points m, window) refl

  prune_keeps :
      (market_id : String) (now_ms t : ℤ) (k : ℕ) (s : Service sql)
      → window s.signal_window market_id ≡ spike_points now_ms (suc k)
      → sub64 t (milliseconds s.cfg.window_duration) ≤ℤ now_ms
      → (window (prune_signals sql market_id t s).signal_window market_id
          ≡ spike_points now_ms (suc k))
        × ((prune_signals sql market_id t s).cfg ≡ s.cfg)
  prune_keeps market_id now_ms t k s h fits =
      let e = prune_lem market_id t (spike_point now_ms) (spike_points now_ms k) s h in
      (
        ap (λ z. window z.signal_window market_id) e
            ∙ window-insert market_id _ s.signal_window
            ∙ points_since-all _ now_ms (suc k) fits,
        ap (λ z. z.cfg) e,
      )

  ingest_keeps :
      (market_id : String) (now_ms t : ℤ) (k : ℕ) (s : Service sql)
      → market_id ≢ ""
      → now_ms ≢ pos 0
      → window s.signal_window market_id ≡ spike_points now_ms k
      → sub64 t (milliseconds s.cfg.window_duration) ≤ℤ now_ms
      → let s' = ingest_signal sql (spike_signal market_id now_ms) t s in
        (window s'.signal_window market_id ≡ spike_points now_ms (suc k)) × (s'.cfg ≡ s.cfg)
  unfolding ingest_signal
  ingest_keeps market_id now_ms t k s named timed h fits =
      let timed' : (now_ms == pos 0) ≡ false =
        ground (arith, int_eq.equals_iff now_ms (pos 0), timed) in
      let named' : (market_id == "") ≡ false = ground (arith, eq_iff market_id "", named) in
      let s₁ = ensure_market_exists sql market_id t s in
      let (same_window, same_cfg) = ensure_keeps market_id t s in
      let grown = window s₁.signal_window market_id ++ spike_point now_ms ∷ [] in
      let s₂ : Service sql = record s₁ {
        signal_window = insert market_id grown s₁.signal_window;
      } in
      let now_at : window s₂.signal_window market_id ≡ spike_points now_ms (suc k) =
        window-insert market_id grown s₁.signal_window
        ∙ ap (λ z. window z market_id ++ spike_point now_ms ∷ []) same_window
        ∙ ap (λ z. z ++ spike_point now_ms ∷ []) h
        ∙ spike_points-append now_ms k in
      let (kept, cfg) =
        prune_keeps market_id now_ms t k s₂ now_at
          (subst (λ z. sub64 t (milliseconds z.window_duration) ≤ℤ now_ms) (sym same_cfg) fits) in
      simp (timed', named') (kept, cfg ∙ same_cfg)

  spike_loop_lem :
      (i k : ℕ) (market_id : String) (now_ms : ℤ) (clock : ℕ → ℤ) (s : Service sql)
      → market_id ≢ ""
      → now_ms ≢ pos 0
      → window s.signal_window market_id ≡ spike_points now_ms k
      → ((j : ℕ) → sub64 (clock j) (milliseconds s.cfg.window_duration) ≤ℤ now_ms)
      → window (spike_loop sql i market_id now_ms clock s).signal_window market_id
        ≡ spike_points now_ms (i + k)
  unfolding spike_loop
  spike_loop_lem zero k market_id now_ms clock s named timed h fits =
      h ∙ ap (spike_points now_ms) (omega arith)
  spike_loop_lem (suc i) k market_id now_ms clock s named timed h fits =
      let (grown, cfg) = ingest_keeps market_id now_ms (clock i) k s named timed h (fits i) in
      spike_loop_lem i (suc k) market_id now_ms clock
        (ingest_signal sql (spike_signal market_id now_ms) (clock i) s) named timed grown
        (λ j.
          subst (λ z. sub64 (clock j) (milliseconds z.window_duration) ≤ℤ now_ms) (sym cfg)
            (fits j))
      ∙ ap (spike_points now_ms) (omega arith)

  spike_total :
      (now_ms : ℤ)
      → add_points
          (record {
            bet_count_30s = pos 0;
            stake_sum_30s_cents = pos 0;
            liability_delta_30s_cents = pos 0;
          })
          (spike_points now_ms 24)
        ≡ record {
          bet_count_30s = pos 144;
          stake_sum_30s_cents = pos 360_000;
          liability_delta_30s_cents = pos 2_400_000;
        }
  unfolding add_points add64 int64 ◌+ℤ◌
  spike_total now_ms = refl

  -- The scenario on a market with an identifier and an empty window, at a time other than 0 that no
  -- reading of the clock in its loop puts outside of the window: the market's metrics are those of
  -- its 24 signals, and by them the default breaker suspends the market if it is open.
  pub run_spike_scenario-suspends :
      (market_id : String) (now_ms t : ℤ) (clock : ℕ → ℤ) (s : Service sql) (m : MarketState)
      → market_id ≢ ""
      → now_ms ≢ pos 0
      → window s.signal_window market_id ≡ []
      → ((j : ℕ) → sub64 (clock j) (milliseconds s.cfg.window_duration) ≤ℤ now_ms)
      → m.status ≡ status_open
      → let total = metrics sql market_id (run_spike_scenario sql market_id now_ms clock s) in
        (total ≡ record {
          bet_count_30s = pos 144;
          stake_sum_30s_cents = pos 360_000;
          liability_delta_30s_cents = pos 2_400_000;
        })
        × ((apply_breaker t m total default_breaker_config).0.status ≡ status_suspended)
  unfolding run_spike_scenario metrics apply_breaker
  run_spike_scenario-suspends market_id now_ms t clock s m named timed empty fits open_now =
      let points = spike_loop_lem 24 0 market_id now_ms clock s named timed empty fits in
      let total = ap (add_points _) points ∙ spike_total now_ms in
      (
        total,
        ap (λ z. (apply_breaker t m z default_breaker_config).0.status) total ∙ rw open_now refl,
      )
