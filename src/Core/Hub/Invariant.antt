-- ===== src/Core/Hub/Invariant.antt =====
-- The hub never panics: every subscriber's channel is open, and no two share a channel.
use novig_take_home.Base.{
  ℕ, true, false, ◌≡◌, ◌≢◌, refl, sym, [], ◌∷◌, ◌++◌, none, some, arith, ltb, Bool-cases,
  Option-cases, inl, inr, ◌∙◌, ℕ_discrete,
}
use novig_take_home.Base.Int.{ℤ, int_eq, int_beq_iff}
use novig_take_home.Base.Lists.{
  length, get_elem?, set, get_elem?-set_self, get_elem?-set_ne, get_elem?-append_left,
  get_elem?-append_length, lt-length,
}
use novig_take_home.Base.Map.{Map, get, delete, get-delete, get-insert_inv, get-delete_inv}
use novig_take_home.Base.Map.Keys.{
  NodupKeys, insert-NodupKeys, delete-NodupKeys, get-cons_self, get-cons_tail,
}
use novig_take_home.Domain.{ReplicationEvent}
use novig_take_home.Core.Hub.{
  Channel, SseHub, new_sse_hub, subscribe, unsubscribe, offer, offer_all, broadcast,
}

abbrev pub IsOpen : SseHub → ℕ → Type 0
IsOpen h ch = (c : Channel) × (get_elem? h.channels ch ≡ some c) × (c.closed ≡ false)

pub record Inv (h : SseHub) : Type 0 where
  pub keys : NodupKeys h.subscribers
  pub live : (id : ℤ) (ch : ℕ) → get h.subscribers id ≡ some ch → IsOpen h ch
  pub distinct :
      (id id' : ℤ) (ch : ℕ)
      → get h.subscribers id ≡ some ch
      → get h.subscribers id' ≡ some ch
      → id ≡ id'

pub new_sse_hub-Inv : Inv new_sse_hub
unfolding get
new_sse_hub-Inv = record { keys = tt; live = λ id ch e. cc; distinct = λ id id' ch e. cc }

IsOpen-append :
    (h : SseHub) (c : Channel) (ch : ℕ)
    → IsOpen h ch
    → IsOpen (record h { channels = h.channels ++ c ∷ [] }) ch
IsOpen-append h c ch (d, found, o) = (d, get_elem?-append_left h.channels (c ∷ []) ch d found, o)

-- A write to another channel, or one that leaves its channel open.
pub IsOpen-set :
    (h : SseHub) (ch ch' : ℕ) (c : Channel)
    → (ch ≡ ch' → c.closed ≡ false)
    → IsOpen h ch'
    → IsOpen (record h { channels = set h.channels ch c }) ch'
IsOpen-set h ch ch' c same (d, found, o) = elim (ℕ_discrete ch ch') [
  | yes hit ↦ (c, rw hit (get_elem?-set_self h.channels ch' c d found), same hit)
  | no miss ↦ (d, rw (get_elem?-set_ne h.channels ch ch' c miss) found, o)
]

module _ (buffer : ℕ) (h : SseHub) (v : Inv h) where
  subscribe-live :
      (id : ℤ) (ch : ℕ)
      → get (subscribe buffer h).2.subscribers id ≡ some ch
      → IsOpen (subscribe buffer h).2 ch
  unfolding subscribe
  subscribe-live id ch e =
      elim (get-insert_inv h.next_id id (length h.channels) ch h.subscribers e) [
        | inl (_, new) ↦ (
          record { capacity = buffer; buffer = []; closed = false },
          rw (← new) (get_elem?-append_length h.channels _),
          refl,
        )
        | inr (_, old) ↦ IsOpen-append h _ ch (v.live id ch old)
      ]

  -- A subscriber's channel is not the next one to be made.
  below-length : (id : ℤ) → get h.subscribers id ≢ some (length h.channels)
  below-length id e =
      let (c, found, _) = v.live id (length h.channels) e in
      absurd (omega (arith, lt-length h.channels (length h.channels) c found))

  subscribe-distinct :
      (id id' : ℤ) (ch : ℕ)
      → get (subscribe buffer h).2.subscribers id ≡ some ch
      → get (subscribe buffer h).2.subscribers id' ≡ some ch
      → id ≡ id'
  unfolding subscribe
  subscribe-distinct id id' ch e e' =
      elim (get-insert_inv h.next_id id (length h.channels) ch h.subscribers e) [
        | inl (i, new) ↦
            elim (get-insert_inv h.next_id id' (length h.channels) ch h.subscribers e') [
              | inl (j, _) ↦ sym i ∙ j
              | inr (_, old) ↦ absurd (below-length id' (rw new old))
            ]
        | inr (_, old) ↦
            elim (get-insert_inv h.next_id id' (length h.channels) ch h.subscribers e') [
              | inl (_, new) ↦ absurd (below-length id (rw new old))
              | inr (_, old') ↦ v.distinct id id' ch old old'
            ]
      ]

  -- A new subscriber keeps the invariant, also where its identifier has wrapped round to one in
  -- use.
  pub subscribe-Inv : Inv (subscribe buffer h).2
  unfolding subscribe
  subscribe-Inv = record {
    keys = insert-NodupKeys h.next_id (length h.channels) h.subscribers v.keys;
    live = subscribe-live;
    distinct = subscribe-distinct;
  }

module _ (h : SseHub) (id : ℤ) (ch : ℕ) (v : Inv h) (found : get h.subscribers id ≡ some ch) where
  -- Closing a subscriber's channel and deleting its entry.
  drop-Inv :
      (c : Channel)
      → Inv (record h { channels = set h.channels ch c; subscribers = delete id h.subscribers })
  drop-Inv c = record {
    keys = delete-NodupKeys id h.subscribers v.keys;
    live = λ id' ch' e.
        let (other, old) = get-delete_inv id id' ch' h.subscribers e in
        IsOpen-set h ch ch' c (λ same. absurd (other (v.distinct id id' ch found (rw same old))))
          (v.live id' ch' old);
    distinct = λ a b ch' p q.
        v.distinct a b ch' (get-delete_inv id a ch' h.subscribers p).1
          (get-delete_inv id b ch' h.subscribers q).1;
  }

  -- Writing to an open channel that stays open.
  write-Inv : (c : Channel) → c.closed ≡ false → Inv (record h { channels = set h.channels ch c })
  write-Inv c o = record {
    keys = v.keys;
    live = λ id' ch' e. IsOpen-set h ch ch' c (λ same. o) (v.live id' ch' e);
    distinct = v.distinct;
  }

  -- One round of the loop succeeds and keeps the invariant and all other entries.
  pub offer-Inv :
      (evt : ReplicationEvent)
      → (h' : SseHub) × (offer evt id ch h ≡ some h')
        × Inv h'
        × ((id' : ℤ) → id ≢ id' → get h'.subscribers id' ≡ get h.subscribers id')
  unfolding offer
  offer-Inv evt =
      let (c, at, o) = v.live id ch found in
      elim (Bool-cases (ltb (length c.buffer) c.capacity)) [
        | inl room ↦ (
          _,
          rw (at, o, room, offer),
          write-Inv (record c { buffer = c.buffer ++ evt ∷ [] }) o,
          λ id' other. refl,
        )
        | inr full ↦ (
          _,
          rw (at, o, full, offer),
          drop-Inv (record c { closed = true }),
          λ id' other. ground (arith, get-delete id id' h.subscribers, int_beq_iff id id'),
        )
      ]

  -- The function that a subscriber is given closes its channel once.
  unsubscribe_found : (h' : SseHub) × (unsubscribe id h ≡ some h') × Inv h'
  unfolding unsubscribe
  unsubscribe_found =
      let (c, at, o) = v.live id ch found in
      (
        record h {
          channels = set h.channels ch (record c { closed = true });
          subscribers = delete id h.subscribers;
        },
        ground (arith, found, at, o),
        drop-Inv (record c { closed = true }),
      )

-- A second call of an unsubscribe function does nothing.
unsubscribe_missing :
    (id : ℤ) (h : SseHub) → get h.subscribers id ≡ none → unsubscribe id h ≡ some h
unfolding unsubscribe
unsubscribe_missing id h e = rw (e, unsubscribe)

pub unsubscribe-Inv :
    (id : ℤ) (h : SseHub) → Inv h → (h' : SseHub) × (unsubscribe id h ≡ some h') × Inv h'
unsubscribe-Inv id h v = elim (Option-cases (get h.subscribers id)) [
  | inl missing ↦ (h, unsubscribe_missing id h missing, v)
  | inr (ch, found) ↦ unsubscribe_found h id ch v found
]

-- `rest` holds entries of the hub's map, which the loop has yet to visit.
abbrev pub Pending : Map ℤ ℕ → SseHub → Type 0
Pending rest h = (id : ℤ) (ch : ℕ) → get rest id ≡ some ch → get h.subscribers id ≡ some ch

pub Pending-tail :
    (id : ℤ) (ch : ℕ) (rest : Map ℤ ℕ) (h h' : SseHub)
    → get rest id ≡ none
    → ((id' : ℤ) → id ≢ id' → get h'.subscribers id' ≡ get h.subscribers id')
    → Pending ((id, ch) ∷ rest) h
    → Pending rest h'
Pending-tail id ch rest h h' absent others p id' ch' found =
    let (ne, there) = get-cons_tail id id' ch ch' rest absent found in
    others id' ne ∙ p id' ch' there

offer_all-Inv :
    (evt : ReplicationEvent) (rest : Map ℤ ℕ) (h : SseHub)
    → Inv h
    → NodupKeys rest
    → Pending rest h
    → (h' : SseHub) × (offer_all evt rest h ≡ some h') × Inv h'
unfolding offer_all
offer_all-Inv evt [] h v n p = (h, refl, v)
offer_all-Inv evt ((id, ch) ∷ rest) h v n p =
    let (h₁, done, v₁, others) = offer-Inv h id ch v (p id ch (get-cons_self id ch rest)) evt in
    let (h₂, more, v₂) =
      offer_all-Inv evt rest h₁ v₁ n.1 (Pending-tail id ch rest h h₁ n.0 others p) in
    (h₂, rw (done, offer_all) more, v₂)

-- A broadcast does not panic, and keeps the invariant.
pub broadcast-Inv :
    (evt : ReplicationEvent) (h : SseHub)
    → Inv h
    → (h' : SseHub) × (broadcast evt h ≡ some h') × Inv h'
unfolding broadcast
broadcast-Inv evt h v = offer_all-Inv evt h.subscribers h v v.keys (λ id ch e. e)
