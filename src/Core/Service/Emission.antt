-- ===== src/Core/Service/Emission.antt =====
-- What `emitEventLocked` does to the log, the sequence number and the hub.
use novig_take_home.Base.{
  ℕ, suc, ◌+◌, ◌<◌, ◌^◌, String, Bool, true, false, ◌≡◌, refl, sym, ap, subst, ◌∙◌, inl, inr, [],
  ◌∷◌, ◌++◌, some, arith,
}
use novig_take_home.Base.Int.{ℤ, pos, ◌+ℤ◌, add64, int64}
use novig_take_home.Base.Errors.{ok, Result-cases}
use novig_take_home.Domain.{MarketState, EventType, ReplicationEvent}
use novig_take_home.Core.EventStore.{Sqlite, insert, last_seq}
use novig_take_home.Core.EventStore.Log.{
  Sequenced, Sequenced-append, insert-rows, last_seq-Sequenced, rows-last_seq,
}
use novig_take_home.Core.Hub.{broadcast}
use novig_take_home.Core.Hub.Invariant
use novig_take_home.Core.Hub.Invariant.{broadcast-Inv}
use novig_take_home.Core.Hub.Contents.{Buffered, broadcast-Buffered}
use novig_take_home.Core.Service.State.{Service}
use novig_take_home.Domain.Json.{Json}
use novig_take_home.Core.Service.Emit.{reload_last_seq, persist, emit_event}

pub next_seq : (n : ℕ) → n + 1 < 2 ^ 63 → add64 (pos n) (pos 1) ≡ pos (suc n)
unfolding add64 int64 ◌+ℤ◌
next_seq n h = ground arith

module _ (sql : Sqlite) where
  -- The log runs from 1 to n without a gap, the service's number is its last, the hub's
  -- invariant holds, and its channels hold parts of the log.
  pub record Inv (n : ℕ) (s : Service sql) : Type 0 where
    pub log : Sequenced 0 (sql.rows s.store) n
    pub last : s.last_seq ≡ pos n
    pub hub : Invariant.Inv s.hub
    pub contents : Buffered (sql.rows s.store) s.hub

  -- The parts of the service that emitting an event never writes.
  pub record SameRest (s s' : Service sql) : Type 0 where
    pub cfg : s'.cfg ≡ s.cfg
    pub markets : s'.markets ≡ s.markets
    pub signal_window : s'.signal_window ≡ s.signal_window
    pub replicas : s'.replicas ≡ s.replicas

  -- A state's event in the log.
  pub record Announced (json : Json) (event_type : EventType) (market_id : String)
      (state : MarketState) (seq : ℕ) (evt : ReplicationEvent) : Type 0 where
    pub numbered : evt.seq ≡ pos seq
    pub typed : evt.event_type ≡ event_type
    pub of_market : evt.market_id ≡ market_id
    pub carries : json.unmarshal evt.payload ≡ ok state

  -- Either one event with the next number is persisted at the log's end and then broadcast, or
  -- nothing changes.
  pub data Emitted (json : Json) (event_type : EventType) (market_id : String) (state : MarketState)
      (n : ℕ) (s : Service sql) (done : Bool) (s' : Service sql) : Type 0 where
    persisted :
        (evt : ReplicationEvent)
        → done ≡ true
        → Announced json event_type market_id state (suc n) evt
        → sql.rows s'.store ≡ sql.rows s.store ++ evt ∷ []
        → broadcast evt s.hub ≡ some s'.hub
        → Inv (suc n) s'
        → SameRest s s'
        → Emitted json event_type market_id state n s done s'
    refused :
        done ≡ false
        → sql.rows s'.store ≡ sql.rows s.store
        → s'.hub ≡ s.hub
        → Inv n s'
        → SameRest s s'
        → Emitted json event_type market_id state n s done s'

  reload-last :
      (n : ℕ) (s : Service sql) (store : sql.Db)
      → Sequenced 0 (sql.rows store) n
      → (reload_last_seq sql (pos n) s store).last_seq ≡ pos n
  unfolding reload_last_seq
  reload-last n s store log = elim (Result-cases (last_seq sql store).0) [
    | inl (m, e) ↦ rw (e, reload_last_seq) (last_seq-Sequenced sql n store m log e)
    | inr (x, e) ↦ rw (e, reload_last_seq) refl
  ]

  reload-Inv :
      (n : ℕ) (s : Service sql) (store : sql.Db)
      → Inv n s
      → sql.rows store ≡ sql.rows s.store
      → let s' = reload_last_seq sql s.last_seq s store in
        (sql.rows s'.store ≡ sql.rows s.store) × (s'.hub ≡ s.hub) × Inv n s' × SameRest s s'
  unfolding reload_last_seq
  reload-Inv n s store v same =
      let rows' = rows-last_seq sql store ∙ same in
      (
        rows',
        refl,
        record {
          log = rw rows' v.log;
          last =
              subst (λ (z : ℤ). (reload_last_seq sql z s store).last_seq ≡ pos n) (sym v.last)
                (reload-last n s store (rw same v.log));
          hub = v.hub;
          contents = rw rows' v.contents;
        },
        record { cfg = refl; markets = refl; signal_window = refl; replicas = refl },
      )

  module _ (json : Json) (event_type : EventType) (market_id : String) (state : MarketState) where
    persist-Emitted :
        (n : ℕ) (s : Service sql) (evt : ReplicationEvent)
        → Inv n s
        → Announced json event_type market_id state (suc n) evt
        → (done : Bool) × (s' : Service sql) × (persist sql evt s ≡ some (done, s'))
          × Emitted json event_type market_id state n s done s'
    unfolding persist
    persist-Emitted n s evt v a = elim (insert-rows sql evt s.store) [
      | inl (stored, grown) ↦
          let (hub', sent, live) = broadcast-Inv evt s.hub v.hub in
          (
            true,
            record s { store = (insert sql evt s.store).1; last_seq = evt.seq; hub = hub' },
            ground (arith, stored, sent),
            persisted evt refl a grown sent
                (record {
                  log = rw grown (
                      Sequenced-append 0 n (suc n) (sql.rows s.store) (evt ∷ []) v.log
                        (a.numbered, refl));
                  last = a.numbered;
                  hub = live;
                  contents =
                      rw grown (
                        broadcast-Buffered (sql.rows s.store) s.hub v.contents evt hub' v.hub sent);
                })
                (record { cfg = refl; markets = refl; signal_window = refl; replicas = refl }),
          )
      | inr (e, failed, kept) ↦
          let (rows', hub', v', rest) = reload-Inv n s (insert sql evt s.store).1 v kept in
          (
            false,
            reload_last_seq sql s.last_seq s (insert sql evt s.store).1,
            ground (arith, failed),
            refused refl rows' hub' v' rest,
          )
    ]

    -- Of a core whose log is gap-free from 1 to n, whose number is n, and whose hub is sound with
    -- only events of the log in its channels, with n + 1 below 2^63: emitting never panics. It either persists one event with the next number, at
    -- the log's end, that carries the state, and then broadcasts it, or it leaves log, number and
    -- hub as they are.
    pub emit_event-Emitted :
        (n : ℕ) (s : Service sql) (event_id : String) (ts_unix_ms : ℤ)
        → Inv n s
        → n + 1 < 2 ^ 63
        → (done : Bool) × (s' : Service sql) × (emit_event sql json event_type market_id state
              event_id ts_unix_ms s
            ≡ some (done, s'))
          × Emitted json event_type market_id state n s done s'
    unfolding emit_event
    emit_event-Emitted n s event_id ts_unix_ms v room = elim (Result-cases (json.marshal state)) [
      | inl (payload, e) ↦
          let evt : ReplicationEvent = record {
            seq = add64 s.last_seq (pos 1);
            event_id = event_id;
            ts_unix_ms = ts_unix_ms;
            event_type = event_type;
            market_id = market_id;
            payload = payload;
          } in
          let (done, s', ran, out) = persist-Emitted n s evt v (record {
            numbered = ap (λ z. add64 z (pos 1)) v.last ∙ next_seq n room;
            typed = refl;
            of_market = refl;
            carries = json.unmarshal-marshal state payload e;
          }) in
          (done, s', ground (arith, e, ran), out)
      | inr (x, e) ↦ (
        false,
        s,
        ground (arith, e),
        refused refl refl refl v
            (record { cfg = refl; markets = refl; signal_window = refl; replicas = refl }),
      )
    ]
