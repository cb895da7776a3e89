-- ===== src/Core/Hub/Delivery.antt =====
-- What a broadcast does to each subscriber.
use novig_take_home.Base.{
  ℕ, true, ◌≡◌, ◌≢◌, refl, sym, ◌∙◌, ap, subst, [], ◌∷◌, ◌++◌, none, some, arith, inl, inr, ◌<◌,
  ◌≤◌, ltb, Bool-cases,
}
use novig_take_home.Base.Int.{ℤ, int_eq, int_beq_iff}
use novig_take_home.Base.Lists.{length, get_elem?, set, get_elem?-set_self, get_elem?-set_ne}
use novig_take_home.Base.Map.{Map, get, delete, get-delete}
use novig_take_home.Base.Map.Keys.{
  NodupKeys, get-cons_self, get-cons_tail, get-cons_inv, get-cons_none,
}
use novig_take_home.Domain.{ReplicationEvent}
use novig_take_home.Core.Hub.{Channel, SseHub, offer, offer_all, broadcast}
use novig_take_home.Core.Hub.Invariant.{Inv, offer-Inv, Pending, Pending-tail}

-- The subscriber `id` with the channel at `ch`, before and after: an event goes to the end of a
-- buffer with room; else the channel is closed with what it holds, and the subscriber is gone.
pub data Served (evt : ReplicationEvent) (id : ℤ) (ch : ℕ) (h h' : SseHub) : Type 0 where
  delivered :
      (c : Channel)
      → get_elem? h.channels ch ≡ some c
      → length c.buffer < c.capacity
      → get_elem? h'.channels ch ≡ some (record c { buffer = c.buffer ++ evt ∷ [] })
      → get h'.subscribers id ≡ some ch
      → Served evt id ch h h'
  evicted :
      (c : Channel)
      → get_elem? h.channels ch ≡ some c
      → c.capacity ≤ length c.buffer
      → get_elem? h'.channels ch ≡ some (record c { closed = true })
      → get h'.subscribers id ≡ none
      → Served evt id ch h h'

-- What a round at (id, ch) leaves alone.
record Keeps (id : ℤ) (ch : ℕ) (h h' : SseHub) : Type 0 where
  channel : (a : ℕ) → ch ≢ a → get_elem? h'.channels a ≡ get_elem? h.channels a
  entry : (j : ℤ) → id ≢ j → get h'.subscribers j ≡ get h.subscribers j

module _ (evt : ReplicationEvent) where
  offer-Served :
      (id : ℤ) (ch : ℕ) (h h' : SseHub)
      → Inv h
      → get h.subscribers id ≡ some ch
      → offer evt id ch h ≡ some h'
      → Served evt id ch h h' × Keeps id ch h h'
  unfolding offer
  offer-Served id ch h h' v found done =
      let (c, at, o) = v.live id ch found in
      elim (Bool-cases (ltb (length c.buffer) c.capacity)) [
        | inl room ↦
            let e : h' ≡ record h {
              channels = set h.channels ch (record c { buffer = c.buffer ++ evt ∷ [] });
            } =
              ground (arith, at, o, room, done) in
            rw e (
              delivered c at (ground arith) (get_elem?-set_self h.channels ch _ c at) found,
              record {
                channel = λ a other. get_elem?-set_ne h.channels ch a _ other;
                entry = λ j other. refl;
              },
            )
        | inr full ↦
            let e : h' ≡ record h {
              channels = set h.channels ch (record c { closed = true });
              subscribers = delete id h.subscribers;
            } =
              ground (arith, at, o, full, done) in
            rw e (
              evicted c at (ground arith) (get_elem?-set_self h.channels ch _ c at)
                  (ground (arith, get-delete id id h.subscribers, int_beq_iff id id)),
              record {
                channel = λ a other. get_elem?-set_ne h.channels ch a _ other;
                entry = λ j other. ground (arith, get-delete id j h.subscribers, int_beq_iff id j);
              },
            )
      ]

  Served-later :
      (id : ℤ) (ch : ℕ) (h h₁ h' : SseHub)
      → get_elem? h'.channels ch ≡ get_elem? h₁.channels ch
      → get h'.subscribers id ≡ get h₁.subscribers id
      → Served evt id ch h h₁
      → Served evt id ch h h'
  Served-later id ch h h₁ h' same same' (delivered c at room now sub) =
      delivered c at room (same ∙ now) (same' ∙ sub)
  Served-later id ch h h₁ h' same same' (evicted c at full now sub) =
      evicted c at full (same ∙ now) (same' ∙ sub)

  Served-earlier :
      (id : ℤ) (ch : ℕ) (h h₁ h' : SseHub)
      → get_elem? h₁.channels ch ≡ get_elem? h.channels ch
      → Served evt id ch h₁ h'
      → Served evt id ch h h'
  Served-earlier id ch h h₁ h' same (delivered c at room now sub) =
      delivered c (sym same ∙ at) room now sub
  Served-earlier id ch h h₁ h' same (evicted c at full now sub) =
      evicted c (sym same ∙ at) full now sub

  -- The effect of the loop over the entries that are left.
  record Rounds (rest : Map ℤ ℕ) (h h' : SseHub) : Type 0 where
    served : (id : ℤ) (ch : ℕ) → get rest id ≡ some ch → Served evt id ch h h'
    channel :
        (a : ℕ)
        → ((id : ℤ) → get rest id ≢ some a)
        → get_elem? h'.channels a ≡ get_elem? h.channels a
    entry : (j : ℤ) → get rest j ≡ none → get h'.subscribers j ≡ get h.subscribers j

  module _ (id : ℤ) (ch : ℕ) (rest : Map ℤ ℕ) (h h₁ h' : SseHub) (v : Inv h)
      (n : NodupKeys ((id, ch) ∷ rest)) (p : Pending ((id, ch) ∷ rest) h)
      (first : Served evt id ch h h₁) (keeps : Keeps id ch h h₁) (later : Rounds rest h₁ h') where
    -- No later entry has the first one's channel.
    own_channel : (j : ℤ) → get rest j ≢ some ch
    own_channel j e =
        let (ne, there) = get-cons_tail id j ch ch rest n.0 e in
        ne (v.distinct id j ch (p id ch (get-cons_self id ch rest)) (p j ch there))

    Served-cons : (j : ℤ) (a : ℕ) → get ((id, ch) ∷ rest) j ≡ some a → Served evt j a h h'
    Served-cons j a e = elim (get-cons_inv id j ch a rest e) [
      | inl (i, w) ↦
          subst (λ k. Served evt k a h h') i
            (subst (λ b. Served evt id b h h') w
              (Served-later id ch h h₁ h' (later.channel ch own_channel) (later.entry id n.0)
                first))
      | inr (ne, there) ↦
          Served-earlier j a h h₁ h'
            (keeps.channel a (λ same. own_channel j (there ∙ ap some (sym same))))
            (later.served j a there)
    ]

    Rounds-cons : Rounds ((id, ch) ∷ rest) h h'
    Rounds-cons = record {
      served = Served-cons;
      channel = λ a not_here.
          later.channel a (λ j there. not_here j (get-cons_tail id j ch a rest n.0 there).1)
          ∙ keeps.channel a (λ same. not_here id (get-cons_self id ch rest ∙ ap some same));
      entry = λ j e.
          let (ne, absent) = get-cons_none id j ch rest e in
          later.entry j absent ∙ keeps.entry j ne;
    }

  offer_all-Rounds :
      (rest : Map ℤ ℕ) (h : SseHub)
      → Inv h
      → NodupKeys rest
      → Pending rest h
      → (h' : SseHub) × (offer_all evt rest h ≡ some h') × Rounds rest h h'
  unfolding offer_all
  offer_all-Rounds [] h v n p = (
    h,
    refl,
    record {
      served = λ id ch e. absurd (unfold get in cc e);
      channel = λ a here. refl;
      entry = λ j e. refl;
    },
  )
  offer_all-Rounds ((id, ch) ∷ rest) h v n p =
      let found = p id ch (get-cons_self id ch rest) in
      let (h₁, done, v₁, others) = offer-Inv h id ch v found evt in
      let (first, keeps) = offer-Served id ch h h₁ v found done in
      let (h', more, later) =
        offer_all-Rounds rest h₁ v₁ n.1 (Pending-tail id ch rest h h₁ n.0 others p) in
      (h', rw (done, offer_all) more, Rounds-cons id ch rest h h₁ h' v n p first keeps later)

  -- A broadcast returns. Each subscriber whose buffer has room gets the event at the buffer's end
  -- and stays; each other one has its channel closed, with what it held, and is gone. A channel
  -- that belongs to no subscriber is as before, and so is an identifier that is not in use.
  pub broadcast_delivers :
      (h : SseHub)
      → Inv h
      → (h' : SseHub) × (broadcast evt h ≡ some h')
        × ((id : ℤ) (ch : ℕ) → get h.subscribers id ≡ some ch → Served evt id ch h h')
        × ((ch : ℕ)
            → ((id : ℤ) → get h.subscribers id ≢ some ch)
            → get_elem? h'.channels ch ≡ get_elem? h.channels ch)
        × ((id : ℤ) → get h.subscribers id ≡ none → get h'.subscribers id ≡ none)
  unfolding broadcast
  broadcast_delivers h v =
      let (h', done, r) = offer_all-Rounds h.subscribers h v v.keys (λ id ch e. e) in
      (h', done, r.served, r.channel, λ id e. r.entry id e ∙ e)
