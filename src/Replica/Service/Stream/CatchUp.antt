-- ===== src/Replica/Service/Stream/CatchUp.antt =====
-- A replica that reads a gap-free part of the core's log, over a store that does not fail.
use novig_take_home.Base.{
  ℕ, suc, ◌+◌, ◌<◌, ◌^◌, String, false, ◌≡◌, refl, sym, ap, ◌∙◌, subst, List, [], ◌∷◌, ◌++◌, Option,
  none, some, arith, inl, inr, string_eq, Option-cases,
}
use novig_take_home.Base.Int.{ℤ, pos, add64}
use novig_take_home.Base.Lists.{All}
use novig_take_home.Base.Errors.{Error, ok, ok_injective}
use novig_take_home.Base.Map.{get, insert, get-insert}
use novig_take_home.Domain.{MarketState, ReplicationEvent}
use novig_take_home.Domain.Json.{Json}
use novig_take_home.Core.EventStore.Log.{Sequenced, Sequenced-length}
use novig_take_home.Core.Service.Emission.{next_seq}
use novig_take_home.Core.Service.Replay.{last_state}
use novig_take_home.Replica.Store.{Sqlite, Tables, is_applied, insert_or_ignore}
use novig_take_home.Replica.Store.Atomicity.{record_applied}
use novig_take_home.Replica.Validate.Accepted.{
  validate_event_envelope_iff, decode_and_validate_event_payload_iff,
}
use novig_take_home.Replica.Service.State.{Service}
use novig_take_home.Replica.Service.Process.{process_event}
use novig_take_home.Replica.Service.Process.Outcome.{
  advanced, repeated, out_of_order, invalid, store_failed, process_event-Processed,
}
use novig_take_home.Replica.Service.Stream.{Line, consume_line, consume_lines}
use novig_take_home.Replica.Service.Stream.Lines.{
  Reliable, IsGood, AreNew, AreNew-append, LinesOf, at_end, skips, carries,
}

record_applied-events :
    (id : String) (seq ts_ms : ℤ) (t : Tables)
    → is_applied id t.applied_events ≡ false
    → (record_applied id seq ts_ms t).applied_events
      ≡ t.applied_events ++ record { event_id = id; seq = seq; applied_at_ms = ts_ms } ∷ []
unfolding record_applied insert_or_ignore
record_applied-events id seq ts_ms t h = rw h refl

abbrev pub or_else {ℓ} : {A : Type ℓ} → Option A → Option A → Option A
or_else (some a) b = some a
or_else none b = b

module _ (sql : Sqlite) (json : Json) where
  -- What the end of the stream leaves.
  pub record CaughtUp (m : ℕ) (evts : List ReplicationEvent) (s : Service sql) (ended : Error)
      (answer : Error) (s' : Service sql) : Type 0 where
    pub to_the_end : answer ≡ ended
    pub number : s'.last_applied_seq ≡ pos m
    pub states :
        (id : String) → get s'.markets id ≡ or_else (last_state json evts id) (get s.markets id)

module _ (sql : Sqlite) (json : Json) (works : Reliable sql) where
  -- The effect of the next event in order.
  record Next (evt : ReplicationEvent) (now_ms : ℤ) (n : ℕ) (s : Service sql)
      (answer : Option Error) (s' : Service sql) : Type 0 where
    market : MarketState
    decoded : json.unmarshal evt.payload ≡ ok market
    quiet : answer ≡ none
    number : s'.last_applied_seq ≡ pos (suc n)
    rows :
        (sql.tables s'.store).applied_events
        ≡ (sql.tables s.store).applied_events
          ++ record { event_id = evt.event_id; seq = evt.seq; applied_at_ms = now_ms } ∷ []
    written : (id : String) → get s'.markets id ≡ get (insert evt.market_id market s.markets) id

  process_event-Next :
      (evt : ReplicationEvent) (now_ms : ℤ) (n : ℕ) (s : Service sql)
      → IsGood json evt
      → evt.seq ≡ pos (suc n)
      → s.last_applied_seq ≡ pos n
      → n + 1 < 2 ^ 63
      → is_applied evt.event_id (sql.tables s.store).applied_events ≡ false
      → let r = process_event sql json evt now_ms s in Next evt now_ms n s r.0 r.1
  process_event-Next evt now_ms n s (envelope, state, reads, asked) numbered last room fresh =
      let accepted = (decode_and_validate_event_payload_iff json evt state).1 (reads, asked) in
      let next : evt.seq ≡ add64 s.last_applied_seq (pos 1) =
        numbered ∙ sym (ap (λ z. add64 z (pos 1)) last ∙ next_seq n room) in
      elim (process_event-Processed sql json evt now_ms s) [
        | advanced market quiet _ _ _ decoded t e ↦
            let same = ok_injective market state (sym decoded ∙ accepted) in
            record {
              market = state;
              decoded = reads;
              quiet = quiet;
              number = e.number ∙ numbered;
              rows =
                  ap (λ z. z.applied_events) t
                  ∙ record_applied-events evt.event_id evt.seq now_ms (sql.tables s.store) fresh;
              written = λ id.
                  e.market_at id
                  ∙ sym (get-insert market.market_id id market s.markets)
                  ∙ ap (λ z. get (insert z.market_id z s.markets) id) same
                  ∙ ap (λ z. get (insert z state s.markets) id) asked.1;
            }
        | repeated _ _ there _ _ ↦ absurd (cc (sym there ∙ fresh))
        | out_of_order _ _ _ _ _ wrong _ _ ↦ absurd (wrong next)
        | invalid x _ (inl bad) _ _ ↦
            absurd (cc (sym bad ∙ (validate_event_envelope_iff evt).1 envelope))
        | invalid x _ (inr bad) _ _ ↦ absurd (cc (sym bad ∙ accepted))
        | store_failed x _ (inl bad) _ _ ↦ absurd (works.reads evt.event_id s.store x bad)
        | store_failed x _ (inr (store, bad)) _ _ ↦
            absurd (works.writes evt.event_id evt.seq now_ms store x bad)
      ]

  last_state-insert :
      (evt : ReplicationEvent) (rest : List ReplicationEvent) (m : MarketState) (s : Service sql)
      (id : String)
      → json.unmarshal evt.payload ≡ ok m
      → or_else (last_state json rest id) (get (insert evt.market_id m s.markets) id)
        ≡ or_else (last_state json (evt ∷ rest) id) (get s.markets id)
  unfolding last_state
  last_state-insert evt rest m s id h = elim (Option-cases (last_state json rest id)) [
    | inl e ↦ ground (arith, e, h, get-insert evt.market_id id m s.markets)
    | inr (w, e) ↦ ground (arith, e)
  ]

  -- Over a store that does not fail, a replica at number n that reads the lines of good events with
  -- new identifiers, numbered from n + 1 to m without a gap, reads to the end of the stream. It is
  -- then at number m, and each market has the state that its last event carries, or the one that it
  -- had if there is none.
  pub consume_lines-CaughtUp :
      (n m : ℕ) (evts : List ReplicationEvent) (lines : List (Line × ℤ)) (ended : Error)
      (s : Service sql)
      → LinesOf evts lines
      → Sequenced n evts m
      → m < 2 ^ 63
      → All (IsGood json) evts
      → AreNew (sql.tables s.store).applied_events evts
      → s.last_applied_seq ≡ pos n
      → let r = consume_lines sql json lines ended s in CaughtUp sql json m evts s ended r.0 r.1
  unfolding consume_lines consume_line last_state
  consume_lines-CaughtUp n m _ _ ended s at_end seqs room good new last = record {
    to_the_end = refl;
    number = last ∙ ap pos seqs;
    states = λ id. refl;
  }
  consume_lines-CaughtUp n m evts _ ended s (skips now_ms rest) seqs room good new last =
      consume_lines-CaughtUp n m evts _ ended s rest seqs room good new last
  consume_lines-CaughtUp n m _ _ ended s (carries {evts} {lines} evt now_ms rest) seqs room good new
        last =
      let r = process_event sql json evt now_ms s in
      let fits : n + 1 < 2 ^ 63 = omega (arith, Sequenced-length (suc n) m evts seqs.1) in
      let one = process_event-Next evt now_ms n s good.0 seqs.0 last fits new.0 in
      let tail =
        consume_lines-CaughtUp (suc n) m evts lines ended r.1 rest seqs.1 room good.1
          (subst (λ z. AreNew z evts) (sym one.rows)
            (AreNew-append (sql.tables s.store).applied_events
              (record { event_id = evt.event_id; seq = evt.seq; applied_at_ms = now_ms }) evts new.1
              new.2))
          one.number in
      let found : (id : String)
          → get (r.1).markets id ≡ get (insert evt.market_id one.market s.markets) id =
        one.written in
      rw (one.quiet, consume_lines)
        (record {
          to_the_end = tail.to_the_end;
          number = tail.number;
          states = λ id.
              tail.states id
              ∙ ap (or_else (last_state json evts id)) (found id)
              ∙ last_state-insert evt evts one.market s id one.decoded;
        })
