-- ===== src/Core/Hub.antt =====
-- internal/core/sse_hub.go: the fanout of live events to subscribers. A channel is an address in
-- the hub's memory, so that the hub and a subscriber share it; `none` is a panic of the runtime
-- (a send on a closed channel, or a second close). Each operation runs under the hub's mutex, and
-- is one step here. The proofs are in the modules below.
pub mod Invariant
pub mod Schedule
pub mod Delivery
pub mod Contents
mod Tests
use novig_take_home.Base.{
  ℕ, Bool, true, false, List, [], ◌∷◌, ◌++◌, Option, none, some, ltb, if◌then◌else◌,
}
use novig_take_home.Base.Int.{ℤ, pos, add64, int_eq}
use novig_take_home.Base.Lists.{length, get_elem?, set}
use novig_take_home.Base.Map.{Map, get, insert, delete}
use novig_take_home.Domain.{ReplicationEvent}

-- A buffered channel.
pub record Channel : Type 0 where
  pub capacity : ℕ
  pub buffer : List ReplicationEvent
  pub closed : Bool

pub record SseHub : Type 0 where
  pub next_id : ℤ
  pub subscribers : Map ℤ ℕ
  pub channels : List Channel

abbrev pub new_sse_hub : SseHub
new_sse_hub = record { next_id = pos 0; subscribers = []; channels = [] }

-- The panics of a channel that is missing do not happen in Go: an address comes from `make`.
unfoldable pub close : ℕ → SseHub → Option SseHub
close ch h = elim (get_elem? h.channels ch) [
  | none ↦ none
  | some c ↦
      if c.closed
      then none
      else some (record h { channels = set h.channels ch (record c { closed = true }) })
]

-- The new channel, the identifier that the unsubscribe function closes over, and the hub.
unfoldable pub subscribe : ℕ → SseHub → ℕ × ℤ × SseHub
subscribe buffer h =
    let id = h.next_id in
    let ch = length h.channels in
    let c : Channel = record { capacity = buffer; buffer = []; closed = false } in
    (
      ch,
      id,
      record {
        next_id = add64 h.next_id (pos 1);
        subscribers = insert id ch h.subscribers;
        channels = h.channels ++ c ∷ [];
      },
    )

-- The function that `Subscribe` returns with the identifier.
unfoldable pub unsubscribe : ℤ → SseHub → Option SseHub
unfolding close
unsubscribe id h = elim (get h.subscribers id) [
  | some existing ↦ close existing (record h { subscribers = delete id h.subscribers })
  | none ↦ some h
]

-- One round of the loop: send if the buffer has room, else close and delete.
unfoldable pub offer : ReplicationEvent → ℤ → ℕ → SseHub → Option SseHub
offer evt id ch h = elim (get_elem? h.channels ch) [
  | none ↦ none
  | some c ↦
      if c.closed
      then none
      else if ltb (length c.buffer) c.capacity
      then some
          (record h { channels = set h.channels ch (record c { buffer = c.buffer ++ evt ∷ [] }) })
      else some (record h {
        channels = set h.channels ch (record c { closed = true });
        subscribers = delete id h.subscribers;
      })
]

unfoldable pub offer_all : ReplicationEvent → Map ℤ ℕ → SseHub → Option SseHub
unfolding offer
offer_all evt [] h = some h
offer_all evt ((id, ch) ∷ rest) h = elim (offer evt id ch h) [
  | none ↦ none
  | some h' ↦ offer_all evt rest h'
]

-- The `range` goes over the subscribers that the map held when it began; the loop deletes only the
-- entry that it is at.
unfoldable pub broadcast : ReplicationEvent → SseHub → Option SseHub
broadcast evt h = offer_all evt h.subscribers h

-- `evt, ok := <-ch` at the consumer's end: the oldest event; closed and drained; or it waits.
pub data Received : Type 0 where
  event : ReplicationEvent → Received
  drained waits : Received

abbrev pub take_oldest : Channel → Received × Channel
take_oldest c = elim c.buffer [
  | [] ↦ (if c.closed then drained else waits, c)
  | evt ∷ rest ↦ (event evt, record c { buffer = rest })
]

unfoldable pub receive : ℕ → SseHub → Received × SseHub
receive ch h = elim (get_elem? h.channels ch) [
  | none ↦ (waits, h)
  | some c ↦ let (got, c') = take_oldest c in (got, record h { channels = set h.channels ch c' })
]
