-- ===== src/Core/Stream/Serving.antt =====
-- What a handler has written, against the log.
use novig_take_home.Base.{
  ℕ, suc, ◌+◌, ◌≤◌, ◌<◌, ◌^◌, Bool, true, false, ◌≡◌, ◌≢◌, refl, sym, ap, ◌∙◌, subst, List, [], ◌∷◌,
  ◌++◌, arith, inl, inr, ◌⊎◌, Bool-cases, append_assoc, ltb,
}
use novig_take_home.Base.Int.{ℤ, pos, add64, ltb_ℤ}
use novig_take_home.Base.Lists.{length}
use novig_take_home.Base.Errors.{Result, ok, err}
use novig_take_home.Domain.{ReplicationEvent}
use novig_take_home.Core.EventStore.Log.{Sequenced}
use novig_take_home.Core.Service.Emission.{next_seq}
use novig_take_home.Core.Stream.{
  Response, Stream, Phase, filling, send, send_all, continue, send_unless_sent, fill_gap, on_event,
  send_backlog, start_stream, write_text, connected, error_body,
}
use novig_take_home.Core.Stream.Since.{since, since-since, since-at, since-cons}
use novig_take_home.Core.Stream.Writing.{
  Encodes, Encodes-append, sent_data, payloads, write_sse_event-data, write_text-data,
}

-- An event of the log.
abbrev pub IsIn : List ReplicationEvent → ReplicationEvent → Type 0
IsIn rows evt =
    (pre : List ReplicationEvent) × (post : List ReplicationEvent) × (rows ≡ pre ++ evt ∷ post)

same_number :
    (i j : ℕ) (a b : ℤ)
    → a ≡ pos (suc i)
    → b ≡ pos (suc j)
    → ltb_ℤ a b ≡ false
    → ltb_ℤ b a ≡ false
    → i ≡ j
same_number i j a b e h p q = ground arith

since_nil-ne-cons :
    (i : ℕ) (evt : ReplicationEvent) (rest : List ReplicationEvent)
    → since (pos (suc i)) [] ≢ evt ∷ rest
unfolding since
since_nil-ne-cons i evt rest h = cc h

module _ (http : Response) (f n : ℕ) (rows : List ReplicationEvent) where
  -- The data written are those of events that, with what the log has from the next number on, make
  -- up what it has from the first number on. Both numbers are one more than `f` and `j`.
  pub record Serving (j : ℕ) (w : http.Conn) (next_seq : ℤ) : Type 0 where
    pub sent : List ReplicationEvent
    pub encoded : Encodes http sent (sent_data http w)
    pub number : next_seq ≡ pos (suc j)
    pub joined : sent ++ since (pos (suc j)) rows ≡ since (pos (suc f)) rows
    pub ahead : f ≤ j
    pub reach : (j ≡ f) ⊎ (j ≤ n)

  -- A write that adds no data.
  pub Serving-conn :
      (j : ℕ) (w w' : http.Conn) (next_seq : ℤ)
      → sent_data http w' ≡ sent_data http w
      → Serving j w next_seq
      → Serving j w' next_seq
  Serving-conn j w w' next_seq same v = record {
    sent = v.sent;
    encoded = rw same v.encoded;
    number = v.number;
    joined = v.joined;
    ahead = v.ahead;
    reach = v.reach;
  }

  abbrev pub Served : Stream http → Type 0
  Served st = (j : ℕ) × Serving j st.conn st.next_seq

  -- A handler that is about to fill a gap has an event of the log.
  abbrev pub Holds : Phase → Type 0
  Holds (filling evt) = IsIn rows evt
  Holds _ = Unit

  abbrev pub Fine : Stream http → Type 0
  Fine st = Served st × Holds st.phase

  module _ (log : Sequenced 0 rows n) (room : n + 1 < 2 ^ 63) where
    -- Writing the next event of the log.
    send-Serving :
        (j : ℕ) (st : Stream http) (evt : ReplicationEvent) (rest : List ReplicationEvent)
        → Serving j st.conn st.next_seq
        → since (pos (suc j)) rows ≡ evt ∷ rest
        → let r = send http evt st in
          ((r.0 ≡ true) × Serving (suc j) r.1.conn r.1.next_seq)
          ⊎ ((r.0 ≡ false) × Serving j r.1.conn r.1.next_seq)
    unfolding send
    send-Serving j st evt rest v here =
        let (numbered, later, low) = since-cons j n rows evt rest log here in
        elim (write_sse_event-data http evt st.conn) [
          | inl (p, done, encodes, grown) ↦
              rw (done, send)
                (inl (
                  refl,
                  record {
                    sent = v.sent ++ evt ∷ [];
                    encoded = rw grown (Encodes-append http v.sent _ evt p v.encoded encodes);
                    number =
                        ap (λ z. add64 z (pos 1)) numbered
                        ∙ next_seq (suc j) (omega (arith, low, room));
                    joined =
                        append_assoc v.sent (evt ∷ []) (since (pos (suc (suc j))) rows)
                        ∙ ap (λ z. v.sent ++ evt ∷ z) later
                        ∙ ap (λ z. v.sent ++ z) (sym here)
                        ∙ v.joined;
                    ahead = omega (arith, v.ahead);
                    reach = inr (omega (arith, low));
                  },
                ))
          | inr (x, failed, same) ↦
              rw (failed, send)
                (inr (
                  refl,
                  record {
                    sent = v.sent;
                    encoded = rw same v.encoded;
                    number = v.number;
                    joined = v.joined;
                    ahead = v.ahead;
                    reach = v.reach;
                  },
                ))
        ]

    -- Writing all that the log has from the next number on.
    send_all-Serving :
        (j : ℕ) (evts : List ReplicationEvent) (st : Stream http)
        → Serving j st.conn st.next_seq
        → since (pos (suc j)) rows ≡ evts
        → let r = send_all http evts st in
          (j' : ℕ) × Serving j' r.1.conn r.1.next_seq
          × ((r.0 ≡ true) → since (pos (suc j')) rows ≡ [])
    unfolding send_all
    send_all-Serving j [] st v here = (j, v, λ _. here)
    send_all-Serving j (evt ∷ rest) st v here = elim (send-Serving j st evt rest v here) [
      | inl (done, v') ↦
          rw (done, send_all)
            (send_all-Serving (suc j) rest (send http evt st).1 v'
              (since-cons j n rows evt rest log here).1)
      | inr (failed, v') ↦ rw (failed, send_all) (j, v', λ h. cc h)
    ]

    -- Where an event of the log stands.
    in_rest :
        (evt : ReplicationEvent)
        → IsIn rows evt
        → (i : ℕ) × (rest : List ReplicationEvent) × (evt.seq ≡ pos (suc i))
          × (since (pos (suc i)) rows ≡ evt ∷ rest)
    in_rest evt (pre, post, e) =
        let (numbered, here) = since-at n pre evt post (subst (λ z. Sequenced 0 z n) e log) in
        (length pre, post, numbered, ap (since (pos (suc (length pre)))) e ∙ here)

    pub continue-Fine : (r : Bool × Stream http) → Served r.1 → Fine (continue http r)
    continue-Fine (true, st) v = (v, tt)
    continue-Fine (false, st) v = (v, tt)

    send-Fine :
        (j : ℕ) (st : Stream http) (evt : ReplicationEvent) (rest : List ReplicationEvent)
        → Serving j st.conn st.next_seq
        → since (pos (suc j)) rows ≡ evt ∷ rest
        → Fine (continue http (send http evt st))
    send-Fine j st evt rest v here =
        continue-Fine (send http evt st) (elim (send-Serving j st evt rest v here) [
          | inl (_, v') ↦ (suc j, v')
          | inr (_, v') ↦ (j, v')
        ])

    -- Every branch of the loop, on an event of the log.
    pub on_event-Fine :
        (evt : ReplicationEvent) (st : Stream http)
        → IsIn rows evt
        → Fine st
        → Fine (on_event http evt st)
    unfolding on_event
    on_event-Fine evt st inside ((j, v), holds) = elim (Bool-cases (ltb_ℤ evt.seq st.next_seq)) [
      | inl behind ↦ rw (behind, on_event) ((j, v), holds)
      | inr not_behind ↦ elim (Bool-cases (ltb_ℤ st.next_seq evt.seq)) [
        | inl gap ↦ rw (not_behind, gap, on_event) ((j, v), inside)
        | inr no_gap ↦
            let (i, rest, numbered, here) = in_rest evt inside in
            let same : i ≡ j =
              same_number i j evt.seq st.next_seq numbered v.number not_behind no_gap in
            rw (not_behind, no_gap, on_event)
              (send-Fine j st evt rest v
                (subst (λ z. since (pos (suc z)) rows ≡ evt ∷ rest) same here))
      ]
    ]

    -- After all that the log had was written, no event of the log is left.
    unless-Fine :
        (evt : ReplicationEvent) (r : Bool × Stream http) (j : ℕ)
        → IsIn rows evt
        → Serving j r.1.conn r.1.next_seq
        → ((r.0 ≡ true) → since (pos (suc j)) rows ≡ [])
        → Fine (send_unless_sent http evt r)
    unfolding send_unless_sent
    unless-Fine evt (false, st) j inside v none_left = ((j, v), tt)
    unless-Fine evt (true, st) j inside v none_left =
        let (i, rest, numbered, here) = in_rest evt inside in
        elim (Bool-cases (ltb i j)) [
          | inl behind ↦
              let e : ltb_ℤ evt.seq st.next_seq ≡ true =
                ground (arith, numbered, v.number, behind) in
              rw (e, send_unless_sent) ((j, v), tt)
          | inr not_behind ↦
              let empty =
                sym (since-since j i rows (ground (arith, not_behind)))
                ∙ ap (since (pos (suc i))) (none_left refl) in
              absurd (since_nil-ne-cons i evt rest (sym empty ∙ here))
        ]

    pub fill_gap-Fine :
        (evt : ReplicationEvent) (found : Result (List ReplicationEvent)) (st : Stream http)
        → IsIn rows evt
        → ((out : List ReplicationEvent) → found ≡ ok out → out ≡ since st.next_seq rows)
        → Served st
        → Fine (fill_gap http evt found st)
    unfolding fill_gap
    fill_gap-Fine evt (err x) st inside law v = (v, tt)
    fill_gap-Fine evt (ok out) st inside law (j, v) =
        let left = ap (λ z. since z rows) (sym v.number) ∙ sym (law out refl) in
        let (j', v', none_left) = send_all-Serving j out st v left in
        unless-Fine evt (send_all http out st) j' inside v' none_left

    backlog-Fine :
        (out : List ReplicationEvent) (r : Bool × Stream http) (j : ℕ)
        → Serving j r.1.conn r.1.next_seq
        → since (pos (suc j)) rows ≡ out
        → Fine (send_backlog http out r)
    unfolding send_backlog
    backlog-Fine out (false, st) j v left = ((j, v), tt)
    backlog-Fine out (true, st) j v left =
        let (j', v', _) = send_all-Serving j out st v left in
        continue-Fine (send_all http out st) (j', v')

    pub start_stream-Fine :
        (found : Result (List ReplicationEvent)) (st : Stream http)
        → ((out : List ReplicationEvent) → found ≡ ok out → out ≡ since st.next_seq rows)
        → Served st
        → Fine (start_stream http found st)
    unfolding start_stream payloads
    start_stream-Fine (err x) st law (j, v) = (
      (j, Serving-conn j st.conn _ st.next_seq (write_text-data http error_body st refl).1 v),
      tt,
    )
    start_stream-Fine (ok out) st law (j, v) =
        backlog-Fine out (write_text http connected st) j
          (Serving-conn j st.conn _ st.next_seq (write_text-data http connected st refl).1 v)
          (ap (λ z. since z rows) (sym v.number) ∙ sym (law out refl))
