-- ===== src/Core/Service/Ticker.antt =====
-- internal/core/service.go: `Start`, and `LastSeq`, `EventsFromSeq` and `Subscribe`, which only pass
-- on. The order in which Go goes through the markets is part of a tick.
use novig_take_home.Base.{ℕ, List, [], ◌∷◌, Option, none, some, ◌≡◌, refl, Option-cases, inl, inr}
use novig_take_home.Base.Int.{ℤ}
use novig_take_home.Base.Errors.{Result}
use novig_take_home.Domain.{ReplicationEvent}
use novig_take_home.Domain.Json.{Json}
use novig_take_home.Core.EventStore.{Sqlite, events_from_seq}
use novig_take_home.Core.Hub.{subscribe}
use novig_take_home.Core.Service.State.{Service}
use novig_take_home.Core.Service.Evaluate.{Visit, evaluate_all}
use novig_take_home.Core.Service.History.{Call, ticks, reads_events, step, run}

-- What the loop receives.
pub data Beat : Type 0 where
  context_done : Beat
  beat : List Visit → ℤ → Beat

module _ (sql : Sqlite) where
  abbrev pub current_seq : Service sql → ℤ
  current_seq s = s.last_seq

  unfoldable pub service_events : ℤ → Service sql → Result (List ReplicationEvent) × Service sql
  service_events from_seq s =
      let (answer, store) = events_from_seq sql from_seq s.store in
      (answer, record s { store = store })

  unfoldable pub service_subscribe : ℕ → Service sql → ℕ × ℤ × Service sql
  service_subscribe buffer s =
      let (channel, id, hub) = subscribe buffer s.hub in (channel, id, record s { hub = hub })

  module _ (json : Json) where
    -- `none` is a panic.
    unfoldable pub start : List Beat → Service sql → Option (Service sql)
    start [] s = some s
    start (context_done ∷ _) s = some s
    start (beat visits now_ms ∷ rest) s = elim (evaluate_all sql json visits now_ms s) [
      | none ↦ none
      | some s' ↦ start rest s'
    ]

    -- The calls that the loop makes.
    abbrev pub calls_of : List Beat → List Call
    calls_of [] = []
    calls_of (context_done ∷ _) = []
    calls_of (beat visits now_ms ∷ rest) = ticks visits now_ms ∷ calls_of rest

    -- The loop is a run of its calls, so that what holds of each run holds of it.
    pub start-run :
        (beats : List Beat) (s : Service sql) → start beats s ≡ run sql json (calls_of beats) s
    unfolding start run step
    start-run [] s = refl
    start-run (context_done ∷ _) s = refl
    start-run (beat visits now_ms ∷ rest) s =
        elim (Option-cases (evaluate_all sql json visits now_ms s)) [
          | inl e ↦ rw (e, start, run) refl
          | inr (s', e) ↦ rw (e, start, run) (start-run rest s')
        ]

  -- What another call sees of the two that pass on.
  pub service_events-step :
      (json : Json) (from_seq : ℤ) (s : Service sql)
      → step sql json (reads_events from_seq) s ≡ some (service_events from_seq s).1
  unfolding step service_events
  service_events-step json from_seq s = refl
