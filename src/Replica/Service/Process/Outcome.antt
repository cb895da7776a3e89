-- ===== src/Replica/Service/Process/Outcome.antt =====
-- What `processEvent` does on each of its branches.
use novig_take_home.Base.{
  String, eq_iff, List, [], ◌∷◌, ◌++◌, if◌then◌else◌, Bool, true, false, ◌≡◌, ◌≢◌, refl, sym, ap,
  ◌∙◌, Option, none, some, arith, inl, inr, ◌⊎◌, Bool-cases, Option-cases, string_eq, ◌==◌,
}
use novig_take_home.Base.Int.{ltb_ℤ, ◌≤ℤ◌, ℤ, pos, add64, int_eq, int_beq_iff}
use novig_take_home.Base.Errors.{Error, seq_gap, is, ok, err, Result-cases}
use novig_take_home.Base.Map.{Map, get, insert, get-insert}
use novig_take_home.Domain.{MarketState, ReplicationEvent}
use novig_take_home.Domain.Json.{Json}
use novig_take_home.Replica.Store.{
  Sqlite, Tables, is_applied, count_applied, is_event_applied, commit_applied_event,
}
use novig_take_home.Replica.Store.Atomicity.{
  record_applied, applied, duplicate, failed, commit_applied_event-Committed,
}
use novig_take_home.Replica.Validate.{validate_event_envelope, decode_and_validate_event_payload}
use novig_take_home.Replica.Service.State.{Service, update_core_last_seq, history_of}
use novig_take_home.Replica.Service.Process.{
  gap_error, apply_event, commit_event, process_new_event, process_event,
}

module _ (sql : Sqlite) (json : Json) (evt : ReplicationEvent) (now_ms : ℤ) where
  abbrev with_store : Service sql → sql.Db → Service sql
  with_store s store = record s { store = store }

  -- What became of the core's number that is known: the larger one of two.
  pub record IsRaised (old seen new : ℤ) : Type 0 where
    pub not_below_old : old ≤ℤ new
    pub not_below_seen : seen ≤ℤ new
    pub one_of_them : (new ≡ old) ⊎ (new ≡ seen)

  -- The events of a market, of which there are none before its first.
  abbrev pub events_of : Option (List ReplicationEvent) → List ReplicationEvent
  events_of none = []
  events_of (some events) = events

  -- The memory after an event that is applied, field by field.
  pub record IsApplied (market : MarketState) (s s' : Service sql) : Type 0 where
    pub market_at :
        (id : String)
        → get s'.markets id ≡ (if market.market_id == id then some market else get s.markets id)
    pub history_at :
        (id : String)
        → get s'.history id ≡ (
            if market.market_id == id
            then some (events_of (get s.history id) ++ evt ∷ [])
            else get s.history id)
    pub number : s'.last_applied_seq ≡ evt.seq
    pub core_number : IsRaised s.core_last_seq evt.seq s'.core_last_seq
    pub synced : s'.last_sync_at_ms ≡ now_ms
    pub others : s' ≡ record s {
      store = s'.store;
      markets = s'.markets;
      history = s'.history;
      last_applied_seq = s'.last_applied_seq;
      core_last_seq = s'.core_last_seq;
      last_sync_at_ms = s'.last_sync_at_ms;
    }

  -- The memory after an event that was applied before.
  pub record IsKnown (s s' : Service sql) : Type 0 where
    pub core_number : IsRaised s.core_last_seq evt.seq s'.core_last_seq
    pub others : s' ≡ record s { store = s'.store; core_last_seq = s'.core_last_seq }

  -- The result of an event, the state before, the answer, and the state after.
  pub data Processed (s : Service sql) (answer : Option Error) (s' : Service sql) : Type 0 where
    advanced :
        (market : MarketState)
        → answer ≡ none
        → validate_event_envelope evt ≡ none
        → is_applied evt.event_id (sql.tables s.store).applied_events ≡ false
        → evt.seq ≡ add64 s.last_applied_seq (pos 1)
        → decode_and_validate_event_payload json evt ≡ ok market
        → sql.tables s'.store ≡ record_applied evt.event_id evt.seq now_ms (sql.tables s.store)
        → IsApplied market s s'
        → Processed s answer s'
    repeated :
        answer ≡ none
        → validate_event_envelope evt ≡ none
        → is_applied evt.event_id (sql.tables s.store).applied_events ≡ true
        → sql.tables s'.store ≡ sql.tables s.store
        → IsKnown s s'
        → Processed s answer s'
    out_of_order :
        (e : Error)
        → answer ≡ some e
        → is e seq_gap ≡ true
        → validate_event_envelope evt ≡ none
        → is_applied evt.event_id (sql.tables s.store).applied_events ≡ false
        → evt.seq ≢ add64 s.last_applied_seq (pos 1)
        → sql.tables s'.store ≡ sql.tables s.store
        → s' ≡ with_store s s'.store
        → Processed s answer s'
    invalid :
        (e : Error)
        → answer ≡ some e
        → (validate_event_envelope evt ≡ some e)
          ⊎ (decode_and_validate_event_payload json evt ≡ err e)
        → sql.tables s'.store ≡ sql.tables s.store
        → s' ≡ with_store s s'.store
        → Processed s answer s'
    store_failed :
        (e : Error)
        → answer ≡ some e
        → ((is_event_applied sql evt.event_id s.store).0 ≡ err e)
          ⊎ ((store : sql.Db) × ((commit_applied_event sql evt.event_id evt.seq now_ms store).0
                ≡ err e))
        → sql.tables s'.store ≡ sql.tables s.store
        → s' ≡ with_store s s'.store
        → Processed s answer s'

  raised_lem : (old seen : ℤ) → IsRaised old seen (if ltb_ℤ old seen then seen else old)
  raised_lem old seen = elim (Bool-cases (ltb_ℤ old seen)) [
    | inl less ↦ rw less (record {
      not_below_old = ground arith;
      not_below_seen = ground arith;
      one_of_them = inr refl;
    })
    | inr not_less ↦ rw not_less (record {
      not_below_old = ground arith;
      not_below_seen = ground arith;
      one_of_them = inl refl;
    })
  ]

  history_lem :
      (history : Map String (List ReplicationEvent)) (market_id id : String)
      → get (insert market_id (history_of sql history market_id ++ evt ∷ []) history) id ≡ (
          if market_id == id then some (events_of (get history id) ++ evt ∷ []) else get history id)
  history_lem history market_id id =
      get-insert market_id id _ history ∙ elim (Bool-cases (market_id == id)) [
        | inl hit ↦
            rw hit
              (ap (λ z. some (events_of (get history z) ++ evt ∷ [])) ((eq_iff market_id id).0 hit))
        | inr miss ↦ rw miss refl
      ]

  apply_event-IsApplied :
      (market : MarketState) (s : Service sql) (store : sql.Db)
      → IsApplied market s (apply_event sql evt market now_ms (with_store s store))
  unfolding apply_event update_core_last_seq
  apply_event-IsApplied market s store = record {
    market_at = λ id. get-insert market.market_id id market s.markets;
    history_at = λ id. history_lem s.history market.market_id id;
    number = refl;
    core_number = raised_lem s.core_last_seq evt.seq;
    synced = refl;
    others = refl;
  }

  update_core_last_seq-IsKnown :
      (s : Service sql) (store : sql.Db)
      → IsKnown s (update_core_last_seq sql evt.seq (with_store s store))
  unfolding update_core_last_seq
  update_core_last_seq-IsKnown s store = record {
    core_number = raised_lem s.core_last_seq evt.seq;
    others = refl;
  }

  is_event_applied-keeps :
      (db : sql.Db) → sql.tables (is_event_applied sql evt.event_id db).1 ≡ sql.tables db
  unfolding is_event_applied
  is_event_applied-keeps db = sql.query_count_keeps evt.event_id db

  is_event_applied_lem :
      (db : sql.Db) (b : Bool)
      → (is_event_applied sql evt.event_id db).0 ≡ ok b
      → is_applied evt.event_id (sql.tables db).applied_events ≡ b
  unfolding is_event_applied count_applied
  is_event_applied_lem db b h = elim (Result-cases (sql.query_count evt.event_id db).0) [
    | inl (n, e) ↦
        let counted = sql.query_count_value evt.event_id db n e in ground (arith, e, counted)
    | inr (x, e) ↦ absurd (ground (arith, e))
  ]

  -- The state after the query, which is what the rest of the handler starts from.
  module _ (s : Service sql) (store : sql.Db) (good : validate_event_envelope evt ≡ none)
      (same : sql.tables store ≡ sql.tables s.store)
      (fresh : is_applied evt.event_id (sql.tables s.store).applied_events ≡ false) where
    commit_event-Processed :
        (market : MarketState)
        → evt.seq ≡ add64 s.last_applied_seq (pos 1)
        → decode_and_validate_event_payload json evt ≡ ok market
        → let r = commit_event sql evt market now_ms (with_store s store) in Processed s r.0 r.1
    unfolding commit_event
    commit_event-Processed market next decoded =
        elim (commit_applied_event-Committed sql evt.event_id evt.seq now_ms store) [
          | applied a _ t ↦
              rw (a, commit_event)
                (advanced market refl good fresh next decoded
                  (t ∙ ap (record_applied evt.event_id evt.seq now_ms) same)
                  (apply_event-IsApplied market s _))
          | duplicate a there t ↦ absurd (
              cc (
                sym there
                ∙ ap (λ (z : Tables). is_applied evt.event_id z.applied_events) same
                ∙ fresh))
          | failed e a t ↦
              rw (a, commit_event) (store_failed e refl (inr (store, a)) (t ∙ same) refl)
        ]

    process_new_event-Processed :
        let r = process_new_event sql json evt now_ms (with_store s store) in Processed s r.0 r.1
    unfolding process_new_event is
    process_new_event-Processed =
        let expected = add64 s.last_applied_seq (pos 1) in
        elim (Bool-cases (evt.seq == expected)) [
          | inl hit ↦
              let next = (int_beq_iff evt.seq expected).0 hit in
              elim (Result-cases (decode_and_validate_event_payload json evt)) [
                | inl (market, e) ↦
                    rw (hit, e, process_new_event) (commit_event-Processed market next e)
                | inr (x, e) ↦ rw (hit, e, process_new_event) (invalid x refl (inr e) same refl)
              ]
          | inr miss ↦
              rw (miss, process_new_event)
                (out_of_order (gap_error expected evt.seq) refl refl good fresh
                  (λ e. absurd (cc (sym miss ∙ (int_beq_iff evt.seq expected).1 e))) same refl)
        ]

  -- An event that is new, the next in order and valid is committed and applied, in the store and in
  -- memory: its market has the state that it carries, its market's history ends with it, the number
  -- is its own, and the other markets, their histories and the other fields are as before. It raises
  -- the core's number that is known to its own if that is larger; this is all that one that was
  -- applied before does. One out of order gives a gap error; and after that or any other error, of
  -- the checks or of the store, both tables and the memory are as before.
  pub process_event-Processed :
      (s : Service sql) → let r = process_event sql json evt now_ms s in Processed s r.0 r.1
  unfolding process_event
  process_event-Processed s = elim (Option-cases (validate_event_envelope evt)) [
    | inl good ↦
        let kept = is_event_applied-keeps s.store in
        elim (Result-cases (is_event_applied sql evt.event_id s.store).0) [
          | inl (true, e) ↦
              rw (good, e, process_event)
                (repeated refl good (is_event_applied_lem s.store true e) kept
                  (update_core_last_seq-IsKnown s _))
          | inl (false, e) ↦
              rw (good, e, process_event)
                (process_new_event-Processed s (is_event_applied sql evt.event_id s.store).1 good
                  kept (is_event_applied_lem s.store false e))
          | inr (x, e) ↦ rw (good, e, process_event) (store_failed x refl (inl e) kept refl)
        ]
    | inr (x, bad) ↦ rw (bad, process_event) (invalid x refl (inl bad) refl refl)
  ]
