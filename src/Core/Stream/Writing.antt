-- ===== src/Core/Stream/Writing.antt =====
-- What the writes of a handler add to the response.
use novig_take_home.Base.{
  String, ◌≡◌, refl, ap, ◌∙◌, List, [], ◌∷◌, ◌++◌, none, some, inl, inr, ◌⊎◌, Option-cases,
  append-nil,
}
use novig_take_home.Base.Errors.{Error, ok, Result-cases}
use novig_take_home.Domain.{ReplicationEvent}
use novig_take_home.Core.Stream.{
  Chunk, connected, keepalive, event_line, error_body, data_line, Response, write_frame,
  write_sse_event, Stream, write_text,
}

-- The data of the frames.
unfoldable pub payloads : List Chunk → List String
payloads [] = []
payloads (data_line p ∷ rest) = p ∷ payloads rest
payloads (connected ∷ rest) = payloads rest
payloads (keepalive ∷ rest) = payloads rest
payloads (event_line ∷ rest) = payloads rest
payloads (error_body ∷ rest) = payloads rest

pub payloads-append : (xs ys : List Chunk) → payloads (xs ++ ys) ≡ payloads xs ++ payloads ys
unfolding payloads
payloads-append [] ys = refl
payloads-append (data_line p ∷ xs) ys = ap (◌∷◌ p) (payloads-append xs ys)
payloads-append (connected ∷ xs) ys = payloads-append xs ys
payloads-append (keepalive ∷ xs) ys = payloads-append xs ys
payloads-append (event_line ∷ xs) ys = payloads-append xs ys
payloads-append (error_body ∷ xs) ys = payloads-append xs ys

module _ (http : Response) where
  -- Each text is the encoding of the event at its place.
  abbrev pub Encodes : List ReplicationEvent → List String → Type 0
  Encodes [] [] = Unit
  Encodes (evt ∷ evts) (p ∷ ps) = (http.marshal_event evt ≡ ok p) × Encodes evts ps
  Encodes _ _ = ⊥

  pub Encodes-append :
      (evts : List ReplicationEvent) (ps : List String) (evt : ReplicationEvent) (p : String)
      → Encodes evts ps
      → http.marshal_event evt ≡ ok p
      → Encodes (evts ++ evt ∷ []) (ps ++ p ∷ [])
  Encodes-append [] [] evt p e h = (h, tt)
  Encodes-append [] (q ∷ ps) evt p e h = absurd e
  Encodes-append (x ∷ evts) [] evt p e h = absurd e
  Encodes-append (x ∷ evts) (q ∷ ps) evt p e h = (e.0, Encodes-append evts ps evt p e.1 h)

  abbrev pub sent_data : http.Conn → List String
  sent_data w = payloads (http.written w)

  -- A write that is not of data, and one that fails, leave the data as they are.
  write-other :
      (text : Chunk) (w : http.Conn)
      → payloads (text ∷ []) ≡ []
      → sent_data (http.write text w).1 ≡ sent_data w
  write-other text w plain = elim (Option-cases (http.write text w).0) [
    | inl e ↦
        ap payloads (http.write_done text w _ (ap (λ z. (z, (http.write text w).1)) e))
        ∙ payloads-append (http.written w) (text ∷ [])
        ∙ ap (λ z. sent_data w ++ z) plain
        ∙ append-nil (sent_data w)
    | inr (x, e) ↦
        ap payloads (http.write_failed text w _ x (ap (λ z. (z, (http.write text w).1)) e))
  ]

  write_frame-data :
      (p : String) (w : http.Conn)
      → let r = write_frame http p w in
        ((r.0 ≡ none) × (sent_data r.1 ≡ sent_data w ++ p ∷ []))
        ⊎ ((x : Error) × (r.0 ≡ some x) × (sent_data r.1 ≡ sent_data w))
  unfolding write_frame payloads
  write_frame-data p w =
      let first = http.write event_line w in
      let second = http.write (data_line p) first.1 in
      let same = write-other event_line w refl in
      elim (Option-cases first.0) [
        | inr (x, f) ↦ rw (f, write_frame) (inr (x, refl, same))
        | inl f ↦ elim (Option-cases second.0) [
          | inr (x, g) ↦
              rw (f, write_frame)
                (inr (
                  x,
                  g,
                  ap payloads
                        (http.write_failed (data_line p) first.1 _ x (ap (λ z. (z, second.1)) g))
                      ∙ same,
                ))
          | inl g ↦
              rw (f, write_frame)
                (inl (
                  g,
                  ap payloads (http.write_done (data_line p) first.1 _ (ap (λ z. (z, second.1)) g))
                      ∙ payloads-append (http.written first.1) (data_line p ∷ [])
                      ∙ ap (λ z. z ++ p ∷ []) same,
                ))
        ]
      ]

  -- A write of an event: its encoding is added, or nothing is.
  pub write_sse_event-data :
      (evt : ReplicationEvent) (w : http.Conn)
      → let r = write_sse_event http evt w in
        ((p : String) × (r.0 ≡ none)
          × (http.marshal_event evt ≡ ok p)
          × (sent_data r.1 ≡ sent_data w ++ p ∷ []))
        ⊎ ((x : Error) × (r.0 ≡ some x) × (sent_data r.1 ≡ sent_data w))
  unfolding write_sse_event
  write_sse_event-data evt w = elim (Result-cases (http.marshal_event evt)) [
    | inr (x, e) ↦ rw (e, write_sse_event) (inr (x, refl, refl))
    | inl (p, e) ↦
        rw (e, write_sse_event)
          (elim (write_frame-data p w) [
            | inl (done, more) ↦ inl (p, done, refl, more)
            | inr failed ↦ inr failed
          ])
  ]

  -- A text that is no data: only the response changes, and its data do not.
  pub write_text-data :
      (text : Chunk) (st : Stream http)
      → payloads (text ∷ []) ≡ []
      → ((write_text http text st).1 ≡ record st { conn = (http.write text st.conn).1 })
        × (sent_data (http.write text st.conn).1 ≡ sent_data st.conn)
  unfolding write_text
  write_text-data text st plain = (refl, write-other text st.conn plain)
