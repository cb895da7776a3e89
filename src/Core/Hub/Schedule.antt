-- ===== src/Core/Hub/Schedule.antt =====
-- The hub under any interleaving of the calls of its users: each holds the mutex, or is one
-- receive by a consumer.
use novig_take_home.Base.{
  ℕ, ◌≡◌, refl, ◌∙◌, ap, List, [], ◌∷◌, Option, none, some, arith, Option-cases, inl, inr,
}
use novig_take_home.Base.Int.{ℤ, int_eq}
use novig_take_home.Base.Lists.{get_elem?, set}
use novig_take_home.Domain.{ReplicationEvent}
use novig_take_home.Core.Hub.{
  Channel, SseHub, new_sse_hub, subscribe, unsubscribe, broadcast, receive, take_oldest,
}
use novig_take_home.Core.Hub.Invariant.{
  Inv, IsOpen-set, new_sse_hub-Inv, subscribe-Inv, unsubscribe-Inv, broadcast-Inv,
}

closed-take_oldest : (c : Channel) → (take_oldest c).1.closed ≡ c.closed
closed-take_oldest c = ground arith

receive_from-Inv :
    (ch : ℕ) (h : SseHub) (c : Channel)
    → get_elem? h.channels ch ≡ some c
    → Inv h
    → Inv (record h { channels = set h.channels ch (take_oldest c).1 })
receive_from-Inv ch h c found v = record {
  keys = v.keys;
  live = λ id ch' e.
      let (d, at, o) = v.live id ch' e in
      IsOpen-set h ch ch' (take_oldest c).1
        (λ same. closed-take_oldest c ∙ cc (ap (get_elem? h.channels) same)) (d, at, o);
  distinct = v.distinct;
}

pub receive-Inv : (ch : ℕ) (h : SseHub) → Inv h → Inv (receive ch h).1
unfolding receive
receive-Inv ch h v = elim (Option-cases (get_elem? h.channels ch)) [
  | inl missing ↦ rw (missing, receive) v
  | inr (c, found) ↦ rw (found, receive) (receive_from-Inv ch h c found v)
]

pub data Call : Type 0 where
  subscribes : ℕ → Call
  unsubscribes : ℤ → Call
  broadcasts : ReplicationEvent → Call
  receives : ℕ → Call

-- `none` is a panic.
unfoldable pub step : Call → SseHub → Option SseHub
step (subscribes buffer) h = some (subscribe buffer h).2
step (unsubscribes id) h = unsubscribe id h
step (broadcasts evt) h = broadcast evt h
step (receives ch) h = some (receive ch h).1

unfoldable pub run : List Call → SseHub → Option SseHub
run [] h = some h
run (c ∷ calls) h = elim (step c h) [ none ↦ none | some h' ↦ run calls h' ]

step-Inv : (c : Call) (h : SseHub) → Inv h → (h' : SseHub) × (step c h ≡ some h') × Inv h'
unfolding step
step-Inv (subscribes buffer) h v = (_, refl, subscribe-Inv buffer h v)
step-Inv (unsubscribes id) h v = unsubscribe-Inv id h v
step-Inv (broadcasts evt) h v = broadcast-Inv evt h v
step-Inv (receives ch) h v = (_, refl, receive-Inv ch h v)

run-Inv :
    (calls : List Call) (h : SseHub) → Inv h → (h' : SseHub) × (run calls h ≡ some h') × Inv h'
unfolding run
run-Inv [] h v = (h, refl, v)
run-Inv (c ∷ calls) h v =
    let (h₁, one, v₁) = step-Inv c h v in
    let (h₂, rest, v₂) = run-Inv calls h₁ v₁ in (h₂, rw (one, run) rest, v₂)

-- No sequence of subscribes, unsubscribes (repeated ones too), broadcasts and receives makes the
-- hub send on a closed channel or close one twice: from a new hub every call returns, and in the
-- state that it leaves each subscriber has an open channel of its own.
pub run-new_sse_hub : (calls : List Call) → (h : SseHub) × (run calls new_sse_hub ≡ some h) × Inv h
run-new_sse_hub calls = run-Inv calls new_sse_hub new_sse_hub-Inv
