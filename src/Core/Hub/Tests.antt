-- ===== src/Core/Hub/Tests.antt =====
-- A subscriber with a buffer for one event, and two events.
use novig_take_home.Base.{ℕ, ◌≡◌, ◌≢◌, List, [], ◌∷◌, some, none}
use novig_take_home.Base.Int.{ℤ, pos, int_eq}
use novig_take_home.Base.Lists.{get_elem?}
use novig_take_home.Base.Map.{get}
use novig_take_home.Domain.{ReplicationEvent, market_updated}
use novig_take_home.Core.Hub.{SseHub, new_sse_hub, subscribe, broadcast}
use novig_take_home.Core.Hub.Invariant.{Inv, new_sse_hub-Inv, subscribe-Inv}
use novig_take_home.Core.Hub.Schedule.{
  Call, subscribes, unsubscribes, broadcasts, receives, run, run-new_sse_hub,
}
use novig_take_home.Core.Hub.Delivery.{Served, broadcast_delivers}

abbrev event : ReplicationEvent
event = record {
  seq = pos 1;
  event_id = "a";
  ts_unix_ms = pos 0;
  event_type = market_updated;
  market_id = "m1";
  payload = "open";
}

-- The second broadcast evicts; the unsubscribe after it, and its repetition, do nothing.
abbrev calls : List Call
calls =
    subscribes 1
    ∷ broadcasts event
    ∷ broadcasts event
    ∷ unsubscribes (pos 0)
    ∷ unsubscribes (pos 0)
    ∷ receives 0
    ∷ []

run-new_sse_hub_example : (h : SseHub) × (run calls new_sse_hub ≡ some h) × Inv h
run-new_sse_hub_example = run-new_sse_hub calls

abbrev one_subscriber : SseHub
one_subscriber = (subscribe 1 new_sse_hub).2

broadcast_delivers_example :
    (h' : SseHub) × (broadcast event one_subscriber ≡ some h')
    × ((id : ℤ) (ch : ℕ)
        → get one_subscriber.subscribers id ≡ some ch
        → Served event id ch one_subscriber h')
    × ((ch : ℕ)
        → ((id : ℤ) → get one_subscriber.subscribers id ≢ some ch)
        → get_elem? h'.channels ch ≡ get_elem? one_subscriber.channels ch)
    × ((id : ℤ) → get one_subscriber.subscribers id ≡ none → get h'.subscribers id ≡ none)
broadcast_delivers_example =
    broadcast_delivers event one_subscriber (subscribe-Inv 1 new_sse_hub new_sse_hub-Inv)
