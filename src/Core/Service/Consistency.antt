-- ===== src/Core/Service/Consistency.antt =====
-- The invariant of the core: the log is gap-free and the markets are its replay.
use novig_take_home.Base.{
  ℕ, ◌+◌, ◌<◌, ◌≤◌, ◌^◌, String, Bool, ◌≡◌, refl, sym, ap, subst, ◌∙◌, inl, inr, List, [], ◌∷◌,
  ◌++◌, Option, some, arith, if◌then◌else◌, string_eq, Option-cases, Bool-cases, append_assoc,
  append-nil,
}
use native.Mathlib.Numerals.{add-one}
use native.Mathlib.Nat.{add-zero}
use novig_take_home.Base.Int.{ℤ}
use novig_take_home.Base.Lists.{length, All, All-append}
use novig_take_home.Base.Errors.{ok}
use novig_take_home.Base.Map.{get, insert, get-insert_self}
use novig_take_home.Domain.{MarketState, ReplicationEvent, EventType, market_updated}
use novig_take_home.Domain.Equality.{is_equal}
use novig_take_home.Domain.Breaker.{apply_breaker}
use novig_take_home.Domain.Breaker.Coherence.{
  Announces, apply_breaker-IsCoherent, apply_breaker_names,
}
use novig_take_home.Core.EventStore.{Sqlite}
use novig_take_home.Core.Service.State.{Service, new_market}
use novig_take_home.Core.Service.Signals.{ensure_market_exists, prune_signals, metrics}
use novig_take_home.Domain.Json.{Json}
use novig_take_home.Core.Service.Emission.{Inv, Emitted, persisted, refused, emit_event-Emitted}
use novig_take_home.Core.Service.Replay.{
  Member, Members, new_market-Member, Members-insert, Replays, Replays-new, Replays-event,
}
use novig_take_home.Core.Service.Evaluate.{Visit, advance_market, commit}

module _ (sql : Sqlite) (json : Json) where
  -- What a consumer may rely on in an event.
  pub record Sound (evt : ReplicationEvent) : Type 0 where
    pub state : MarketState
    pub carries : json.unmarshal evt.payload ≡ ok state
    pub member : Member evt.market_id state
    pub announces : Announces evt.event_type state.status

  -- The log is `before`, which was there when the service began, and then `evts`, one number after
  -- the other; the markets are the replay of `evts`.
  pub record Consistent (before evts : List ReplicationEvent) (n : ℕ) (s : Service sql)
      : Type 0 where
    pub inv : Inv sql n s
    pub log : sql.rows s.store ≡ before ++ evts
    pub members : Members s.markets
    pub replays : Replays json evts s.markets
    pub sound : All Sound evts

  module _ (before evts : List ReplicationEvent) (n : ℕ) where
    pub ensure-Consistent :
        (id : String) (now : ℤ) (s : Service sql)
        → Consistent before evts n s
        → Consistent before evts n (ensure_market_exists sql id now s)
          × ((m : MarketState) × (get (ensure_market_exists sql id now s).markets id ≡ some m))
    unfolding ensure_market_exists
    ensure-Consistent id now s c = elim (Option-cases (get s.markets id)) [
      | inl missing ↦
          rw (missing, ensure_market_exists)
            (
              record {
                inv = record {
                  log = c.inv.log;
                  last = c.inv.last;
                  hub = c.inv.hub;
                  contents = c.inv.contents;
                };
                log = c.log;
                members =
                    Members-insert id (new_market id now) s.markets c.members
                      (new_market-Member id now);
                replays = Replays-new json evts s.markets id now c.replays missing;
                sound = c.sound;
              },
              (new_market id now, get-insert_self id (new_market id now) s.markets),
            )
      | inr (m, found) ↦ rw (found, ensure_market_exists) (c, (m, found))
    ]

    prune_lem :
        (id : String) (now : ℤ) (s : Service sql)
        → prune_signals sql id now s
          ≡ record s { signal_window = (prune_signals sql id now s).signal_window }
    unfolding prune_signals
    prune_lem id now s = ground arith

    pub prune-Consistent :
        (id : String) (now : ℤ) (s : Service sql)
        → Consistent before evts n s
        → Consistent before evts n (prune_signals sql id now s)
          × ((prune_signals sql id now s).markets ≡ s.markets)
    prune-Consistent id now s c =
        subst (λ s'. Consistent before evts n s' × (s'.markets ≡ s.markets))
          (sym (prune_lem id now s))
          (
            record {
              inv = record {
                log = c.inv.log;
                last = c.inv.last;
                hub = c.inv.hub;
                contents = c.inv.contents;
              };
              log = c.log;
              members = c.members;
              replays = c.replays;
              sound = c.sound;
            },
            refl,
          )

  -- After an event, if it was persisted, and the new state's write.
  Consistent-commit :
      (before evts : List ReplicationEvent) (n : ℕ) (s s' : Service sql) (id : String)
      (event_type : EventType) (next : MarketState) (done : Bool)
      → Consistent before evts n s
      → Member id next
      → Announces event_type next.status
      → Emitted sql json event_type id next n s done s'
      → (s'' : Service sql) × (new : List ReplicationEvent) × (commit sql json id next
            (some (done, s'))
          ≡ some s'')
        × Consistent before (evts ++ new) (n + length new) s''
        × (length new ≤ 1)
  Consistent-commit before evts n s s' id event_type next done c m a
        (persisted evt d an grown sent inv rest) =
      (
        record s' { markets = insert id next s'.markets },
        evt ∷ [],
        rw d refl,
        record {
          inv =
              rw add-one
                (record { log = inv.log; last = inv.last; hub = inv.hub; contents = inv.contents });
          log = grown ∙ ap (λ l. l ++ evt ∷ []) c.log ∙ append_assoc before evts (evt ∷ []);
          members = rw rest.markets (Members-insert id next s.markets c.members m);
          replays =
              subst (λ (k : String). Replays json (evts ++ evt ∷ []) (insert k next s'.markets))
                an.of_market
                (rw rest.markets (Replays-event json evts s.markets evt next c.replays an.carries));
          sound = All-append Sound evts (evt ∷ []) c.sound (
            record {
              state = next;
              carries = an.carries;
              member = subst (λ (k : String). Member k next) (sym an.of_market) m;
              announces = subst (λ (t : EventType). Announces t next.status) (sym an.typed) a;
            },
            tt,
          );
        },
        omega arith,
      )
  Consistent-commit before evts n s s' id event_type next done c m a (refused d kept hub inv rest) =
      (
        s',
        [],
        rw d refl,
        rw (append-nil, add-zero)
            (record {
              inv = inv;
              log = kept ∙ c.log;
              members = rw rest.markets c.members;
              replays = rw rest.markets c.replays;
              sound = c.sound;
            }),
        omega arith,
      )

  -- What a step of the core adds to a consistent state: events at the log's end, and nothing else
  -- of the log changes.
  pub record Advanced (before evts : List ReplicationEvent) (n room : ℕ) (r : Option (Service sql))
      : Type 0 where
    pub after : Service sql
    pub new : List ReplicationEvent
    pub returns : r ≡ some after
    pub consistent : Consistent before (evts ++ new) (n + length new) after
    pub few : length new ≤ room

  pub advance-Advanced :
      (before evts : List ReplicationEvent) (n : ℕ) (visit : Visit) (now : ℤ) (prev : MarketState)
      (s : Service sql)
      → Consistent before evts n s
      → n + 1 < 2 ^ 63
      → Member visit.market_id prev
      → Advanced before evts n 1 (advance_market sql json visit now prev s)
  unfolding advance_market
  advance-Advanced before evts n visit now prev s c room m =
      let (next, transition_type, transitioned) =
        apply_breaker now prev (metrics sql visit.market_id s) s.cfg.breaker in
      let (coherent, announces) =
        apply_breaker-IsCoherent now prev (metrics sql visit.market_id s) s.cfg.breaker
          m.coherent in
      let (named, typed) =
        apply_breaker_names now prev (metrics sql visit.market_id s) s.cfg.breaker in
      elim (Bool-cases (is_equal prev next)) [
        | inl same ↦ record {
          after = s;
          new = [];
          returns = rw (same, advance_market) refl;
          consistent = rw (append-nil, add-zero) c;
          few = omega arith;
        }
        | inr differs ↦
            let event_type = if transitioned then transition_type else market_updated in
            let (done, s', ran, out) =
              emit_event-Emitted sql json event_type visit.market_id next n s visit.event_id
                visit.ts_unix_ms c.inv room in
            let (s'', new, committed, c', few) =
              Consistent-commit before evts n s s' visit.market_id event_type next done c
                (record { named = named ∙ m.named; coherent = coherent })
                (subst (λ (t : EventType). Announces t next.status) (sym typed) announces) out in
            record {
              after = s'';
              new = new;
              returns = rw (differs, ran) committed;
              consistent = c';
              few = few;
            }
      ]
