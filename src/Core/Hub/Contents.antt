-- ===== src/Core/Hub/Contents.antt =====
-- What the channels hold, as parts of a log: a subscriber's buffer is the end of the log, and any
-- other one is a part of it without a gap.
use novig_take_home.Base.{
  ℕ, ◌≡◌, ◌≢◌, refl, sym, ap, ◌∙◌, subst, true, false, List, [], ◌∷◌, ◌++◌, some, arith, inl, inr,
  ◌⊎◌, Option-cases, ℕ_discrete, append_assoc, append-nil,
}
use novig_take_home.Base.Int.{ℤ, int_eq}
use novig_take_home.Base.Lists.{
  length, get_elem?, set, get_elem?-set_self, get_elem?-set_ne, get_elem?-append_inv, lt-length,
}
use novig_take_home.Base.Map.{Map, get, delete, get-insert_inv, get-delete_inv}
use novig_take_home.Base.Map.Keys.{NodupKeys, get-cons_self, get-cons_tail, get-cons_inv}
use novig_take_home.Domain.{ReplicationEvent}
use novig_take_home.Core.Hub.{
  Channel, SseHub, new_sse_hub, subscribe, unsubscribe, close, broadcast, receive, take_oldest,
}
use novig_take_home.Core.Hub.Invariant.{Inv}
use novig_take_home.Core.Hub.Delivery.{Served, delivered, evicted, broadcast_delivers}

abbrev pub IsEnd : List ReplicationEvent → List ReplicationEvent → Type 0
IsEnd rows buffer = (pre : List ReplicationEvent) × (rows ≡ pre ++ buffer)

abbrev pub IsPart : List ReplicationEvent → List ReplicationEvent → Type 0
IsPart rows buffer =
    (pre : List ReplicationEvent) × (post : List ReplicationEvent) × (rows
      ≡ pre ++ (buffer ++ post))

pub record Buffered (rows : List ReplicationEvent) (h : SseHub) : Type 0 where
  pub subscribed :
      (id : ℤ) (ch : ℕ) (c : Channel)
      → get h.subscribers id ≡ some ch
      → get_elem? h.channels ch ≡ some c
      → IsEnd rows c.buffer
  pub any : (ch : ℕ) (c : Channel) → get_elem? h.channels ch ≡ some c → IsPart rows c.buffer

pub new_sse_hub-Buffered : (rows : List ReplicationEvent) → Buffered rows new_sse_hub
unfolding get
new_sse_hub-Buffered rows = record { subscribed = λ id ch c e. cc; any = λ ch c e. cc }

IsEnd-IsPart : (rows buffer : List ReplicationEvent) → IsEnd rows buffer → IsPart rows buffer
IsEnd-IsPart rows buffer (pre, e) = (pre, [], rw append-nil e)

IsPart-later :
    (rows buffer : List ReplicationEvent) (evt : ReplicationEvent)
    → IsPart rows buffer
    → IsPart (rows ++ evt ∷ []) buffer
IsPart-later rows buffer evt (pre, post, e) = (pre, post ++ evt ∷ [], rw e (simp (append_assoc)))

IsEnd-grow :
    (rows buffer : List ReplicationEvent) (evt : ReplicationEvent)
    → IsEnd rows buffer
    → IsEnd (rows ++ evt ∷ []) (buffer ++ evt ∷ [])
IsEnd-grow rows buffer evt (pre, e) = (pre, rw e (simp (append_assoc)))

-- Whether a channel is some subscriber's.
owner :
    (m : Map ℤ ℕ) (ch : ℕ)
    → NodupKeys m
    → ((id : ℤ) × (get m id ≡ some ch)) ⊎ ((id : ℤ) → get m id ≢ some ch)
owner [] ch n = inr (λ id e. unfold get in cc e)
owner ((id, a) ∷ m) ch n = elim (ℕ_discrete a ch) [
  | yes hit ↦ inl (id, get-cons_self id a m ∙ ap some hit)
  | no miss ↦ elim (owner m ch n.1) [
    | inl (j, there) ↦ inl (j, (get-cons_tail id j a ch m n.0 there).1)
    | inr nowhere ↦ inr (λ j e. elim (get-cons_inv id j a ch m e) [
      | inl (_, same) ↦ absurd (miss same)
      | inr (_, there) ↦ nowhere j there
    ])
  ]
]

module _ (rows : List ReplicationEvent) (h : SseHub) (b : Buffered rows h) where
  -- A write to one channel that leaves it a part, and the subscriptions that stay.
  set-Buffered :
      (ch : ℕ) (c d : Channel) (subs : Map ℤ ℕ)
      → get_elem? h.channels ch ≡ some c
      → IsPart rows d.buffer
      → ((id : ℤ) (a : ℕ) → get subs id ≡ some a → get h.subscribers id ≡ some a)
      → ((id : ℤ) → get subs id ≡ some ch → IsEnd rows d.buffer)
      → Buffered rows (record h { channels = set h.channels ch d; subscribers = subs })
  set-Buffered ch c d subs at part old own = record {
    subscribed = λ id a x sub found. elim (ℕ_discrete ch a) [
      | yes hit ↦
          let same = get_elem?-set_self h.channels ch d c at in
          let e : some d ≡ some x = sym same ∙ ap (get_elem? (set h.channels ch d)) hit ∙ found in
          let f : d ≡ x = cc e in
          subst (λ (z : Channel). IsEnd rows z.buffer) f (own id (rw hit sub))
      | no miss ↦
          b.subscribed id a x (old id a sub) (sym (get_elem?-set_ne h.channels ch a d miss) ∙ found)
    ];
    any = λ a x found. elim (ℕ_discrete ch a) [
      | yes hit ↦
          let same = get_elem?-set_self h.channels ch d c at in
          let e : some d ≡ some x = sym same ∙ ap (get_elem? (set h.channels ch d)) hit ∙ found in
          let f : d ≡ x = cc e in subst (λ (z : Channel). IsPart rows z.buffer) f part
      | no miss ↦ b.any a x (sym (get_elem?-set_ne h.channels ch a d miss) ∙ found)
    ];
  }

  tail-IsPart :
      (evt : ReplicationEvent) (rest : List ReplicationEvent)
      → IsPart rows (evt ∷ rest)
      → IsPart rows rest
  tail-IsPart evt rest (pre, post, e) = (pre ++ evt ∷ [], post, e ∙ simp (append_assoc))

  tail-IsEnd :
      (evt : ReplicationEvent) (rest : List ReplicationEvent)
      → IsEnd rows (evt ∷ rest)
      → IsEnd rows rest
  tail-IsEnd evt rest (pre, e) = (pre ++ evt ∷ [], e ∙ simp (append_assoc))

  -- A receive takes the oldest event of one buffer.
  taken-Buffered :
      (ch : ℕ) (c : Channel) (buffer : List ReplicationEvent)
      → get_elem? h.channels ch ≡ some c
      → c.buffer ≡ buffer
      → Buffered rows (record h { channels = set h.channels ch (take_oldest c).1 })
  taken-Buffered ch c [] at e =
      set-Buffered ch c _ h.subscribers at (rw e (subst (IsPart rows) e (b.any ch c at)))
        (λ id a s. s) (λ id s. rw e (subst (IsEnd rows) e (b.subscribed id ch c s at)))
  taken-Buffered ch c (evt ∷ rest) at e =
      set-Buffered ch c _ h.subscribers at
        (rw e (tail-IsPart evt rest (subst (IsPart rows) e (b.any ch c at)))) (λ id a s. s)
        (λ id s. rw e (tail-IsEnd evt rest (subst (IsEnd rows) e (b.subscribed id ch c s at))))

  pub receive-Buffered : (ch : ℕ) → Buffered rows (receive ch h).1
  unfolding receive
  receive-Buffered ch = elim (Option-cases (get_elem? h.channels ch)) [
    | inl missing ↦ rw (missing, receive) b
    | inr (c, at) ↦ rw (at, receive) (taken-Buffered ch c c.buffer at refl)
  ]

  pub unsubscribe-Buffered :
      (id : ℤ) (h' : SseHub) → Inv h → unsubscribe id h ≡ some h' → Buffered rows h'
  unfolding unsubscribe close
  unsubscribe-Buffered id h' v done = elim (Option-cases (get h.subscribers id)) [
    | inl missing ↦ let e : h ≡ h' = ground (arith, missing, done) in subst (Buffered rows) e b
    | inr (ch, found) ↦
        let (c, at, o) = v.live id ch found in
        let e : record h {
          channels = set h.channels ch (record c { closed = true });
          subscribers = delete id h.subscribers;
        }
            ≡ h' =
          ground (arith, found, at, o, done) in
        subst (Buffered rows) e (
          set-Buffered ch c (record c { closed = true }) (delete id h.subscribers) at
            (b.any ch c at) (λ id' a s. (get-delete_inv id id' a h.subscribers s).1)
            (λ id' s. b.subscribed id' ch c (get-delete_inv id id' ch h.subscribers s).1 at))
  ]

  -- The new channel is empty, and no other one changes.
  pub subscribe-Buffered : (buffer : ℕ) → Buffered rows (subscribe buffer h).2
  unfolding subscribe
  subscribe-Buffered buffer =
      let c : Channel = record { capacity = buffer; buffer = []; closed = false } in
      record {
        subscribed = λ id a x sub found. elim (get_elem?-append_inv h.channels c a x found) [
          | inr (_, new) ↦
              subst (λ (z : Channel). IsEnd rows z.buffer) new (rows, sym (append-nil rows))
          | inl old ↦ elim (get-insert_inv h.next_id id (length h.channels) a h.subscribers sub) [
            | inl (_, same) ↦ absurd (omega (arith, same, lt-length h.channels a x old))
            | inr (_, earlier) ↦ b.subscribed id a x earlier old
          ]
        ];
        any = λ a x found. elim (get_elem?-append_inv h.channels c a x found) [
          | inr (_, new) ↦
              subst (λ (z : Channel). IsPart rows z.buffer) new (rows, [], sym (append-nil rows))
          | inl old ↦ b.any a x old
        ];
      }

  module _ (evt : ReplicationEvent) (g : SseHub) where
    sent_to_end :
        (id : ℤ) (a ch : ℕ) (c : Channel)
        → get h.subscribers id ≡ some a
        → Served evt id a h g
        → get g.subscribers id ≡ some ch
        → get_elem? g.channels ch ≡ some c
        → IsEnd (rows ++ evt ∷ []) c.buffer
    sent_to_end id a ch c before (delivered d at room now still) sub found =
        let f : record d { buffer = d.buffer ++ evt ∷ [] } ≡ c = cc (now, still, sub, found) in
        subst (λ (z : Channel). IsEnd (rows ++ evt ∷ []) z.buffer) f
          (IsEnd-grow rows d.buffer evt (b.subscribed id a d before at))
    sent_to_end id a ch c before (evicted d at full now away) sub found =
        absurd (cc (sym away ∙ sub))

    sent_to_part :
        (id : ℤ) (ch : ℕ) (c : Channel)
        → get h.subscribers id ≡ some ch
        → Served evt id ch h g
        → get_elem? g.channels ch ≡ some c
        → IsPart (rows ++ evt ∷ []) c.buffer
    sent_to_part id ch c before (delivered d at room now still) found =
        IsEnd-IsPart (rows ++ evt ∷ []) c.buffer
          (sent_to_end id ch ch c before (delivered d at room now still) still found)
    sent_to_part id ch c before (evicted d at full now away) found =
        let f : record d { closed = true } ≡ c = cc (now, found) in
        subst (λ (z : Channel). IsPart (rows ++ evt ∷ []) z.buffer) f
          (IsPart-later rows d.buffer evt (b.any ch d at))

  module _ (evt : ReplicationEvent) (h' : SseHub) (v : Inv h)
      (sent : broadcast evt h ≡ some h') where
    -- A broadcast of the event that the log has got.
    pub broadcast-Buffered : Buffered (rows ++ evt ∷ []) h'
    broadcast-Buffered =
        let (g, done, served, kept, gone) = broadcast_delivers evt h v in
        let e : g ≡ h' = cc (done, sent) in
        subst (Buffered (rows ++ evt ∷ [])) e (record {
          subscribed = λ id ch c sub found. elim (Option-cases (get h.subscribers id)) [
            | inl none_before ↦ absurd (cc (sym (gone id none_before) ∙ sub))
            | inr (a, before) ↦ sent_to_end evt g id a ch c before (served id a before) sub found
          ];
          any = λ ch c found. elim (owner h.subscribers ch v.keys) [
            | inl (id, there) ↦ sent_to_part evt g id ch c there (served id ch there) found
            | inr nowhere ↦
                IsPart-later rows c.buffer evt (b.any ch c (sym (kept ch nowhere) ∙ found))
          ];
        })
