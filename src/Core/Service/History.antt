-- ===== src/Core/Service/History.antt =====
-- The core over any sequence of the calls that its tickers, its handlers and its subscribers make.
-- Each call holds a mutex, so that any interleaving is such a sequence.
use native.Mathlib.Nat.{add-zero}
use novig_take_home.Base.{
  ℕ, ◌+◌, ◌<◌, ◌^◌, String, ◌≡◌, refl, sym, subst, ◌∙◌, List, [], ◌∷◌, Option, none, some, arith,
  append-nil, string_eq, inl, inr, Bool-cases, if◌then◌else◌, ◌==◌,
}
use novig_take_home.Base.Int.{ℤ, int_eq}
use novig_take_home.Base.Lists.{length}
use novig_take_home.Base.Map.{Map}
use novig_take_home.Domain.{ReplicationEvent, SignalInput}
use novig_take_home.Core.EventStore.{Sqlite, events_from_seq}
use novig_take_home.Core.EventStore.Log.{events_from_seq_lem}
use novig_take_home.Core.Hub.{SseHub, subscribe, unsubscribe, receive}
use novig_take_home.Core.Hub.Invariant
use novig_take_home.Core.Hub.Invariant.{subscribe-Inv, unsubscribe-Inv, new_sse_hub-Inv}
use novig_take_home.Core.Hub.Schedule.{receive-Inv}
use novig_take_home.Core.Hub.Contents.{
  Buffered, subscribe-Buffered, unsubscribe-Buffered, receive-Buffered,
}
use novig_take_home.Core.ReplicaHealth.{ReplicaHeartbeat}
use novig_take_home.Core.Service.State.{Service, SignalPoint}
use novig_take_home.Core.Service.Signals.{ensure_market_exists, ingest_signal, clear_signals}
use novig_take_home.Domain.Json.{Json}
use novig_take_home.Core.Service.Evaluate.{Visit, evaluate_all}
use novig_take_home.Core.Service.Replicas.{
  record_replica_heartbeat, replica_statuses, update_replica_health,
}
use novig_take_home.Core.Service.Consistency.{
  Consistent, Advanced, ensure-Consistent, prune-Consistent,
}
use novig_take_home.Core.Service.Tick.{
  Consistent-replicas, refresh-Consistent, update_lem, evaluate_all-Advanced,
}

-- With the clock's reading.
pub data Call : Type 0 where
  ticks : List Visit → ℤ → Call
  ingests : SignalInput → ℤ → Call
  clears : String → ℤ → Call
  heartbeats : ReplicaHeartbeat → ℤ → Call
  asks_statuses : ℤ → Call
  reads_events : ℤ → Call
  subscribes : ℕ → Call
  unsubscribes : ℤ → Call
  receives : ℕ → Call

-- How many events a call may emit.
abbrev pub emits : Call → ℕ
emits (ticks visits now) = length visits
emits _ = 0

module _ (sql : Sqlite) (json : Json) where
  unfoldable pub step : Call → Service sql → Option (Service sql)
  step (ticks visits now) s = evaluate_all sql json visits now s
  step (ingests input now) s = some (ingest_signal sql input now s)
  step (clears market_id now) s = some (clear_signals sql market_id now s)
  step (heartbeats input now) s = some (record_replica_heartbeat sql input now s)
  step (asks_statuses now) s = some (replica_statuses sql now s).1
  step (reads_events from_seq) s =
      some (record s { store = (events_from_seq sql from_seq s.store).1 })
  step (subscribes buffer) s = some (record s { hub = (subscribe buffer s.hub).2 })
  step (unsubscribes id) s = elim (unsubscribe id s.hub) [
    | none ↦ none
    | some hub ↦ some (record s { hub = hub })
  ]
  step (receives ch) s = some (record s { hub = (receive ch s.hub).1 })

  unfoldable pub run : List Call → Service sql → Option (Service sql)
  run [] s = some s
  run (c ∷ calls) s = elim (step c s) [ none ↦ none | some s' ↦ run calls s' ]

  module _ (before evts : List ReplicationEvent) (n : ℕ) (s : Service sql)
      (c : Consistent sql json before evts n s) where
    -- The rolling windows are no part of the invariant.
    window-Consistent :
        (w : Map String (List SignalPoint))
        → Consistent sql json before evts n (record s { signal_window = w })
    window-Consistent w = record {
      inv = record {
        log = c.inv.log;
        last = c.inv.last;
        hub = c.inv.hub;
        contents = c.inv.contents;
      };
      log = c.log;
      members = c.members;
      replays = c.replays;
      sound = c.sound;
    }

    pub hub-Consistent :
        (hub : SseHub)
        → Invariant.Inv hub
        → Buffered (sql.rows s.store) hub
        → Consistent sql json before evts n (record s { hub = hub })
    hub-Consistent hub v b = record {
      inv = record { log = c.inv.log; last = c.inv.last; hub = v; contents = b };
      log = c.log;
      members = c.members;
      replays = c.replays;
      sound = c.sound;
    }

    pub store-Consistent :
        (db : sql.Db)
        → sql.rows db ≡ sql.rows s.store
        → Consistent sql json before evts n (record s { store = db })
    store-Consistent db same = record {
      inv = record {
        log = rw same c.inv.log;
        last = c.inv.last;
        hub = c.inv.hub;
        contents = rw same c.inv.contents;
      };
      log = same ∙ c.log;
      members = c.members;
      replays = c.replays;
      sound = c.sound;
    }

  module _ (before evts : List ReplicationEvent) (n : ℕ) where
    quiet :
        (room : ℕ) (s : Service sql)
        → Consistent sql json before evts n s
        → Advanced sql json before evts n room (some s)
    quiet room s c = record {
      after = s;
      new = [];
      returns = refl;
      consistent = rw (append-nil, add-zero) c;
      few = omega arith;
    }

    pub ingest-Consistent :
        (input : SignalInput) (now : ℤ) (s : Service sql)
        → Consistent sql json before evts n s
        → Consistent sql json before evts n (ingest_signal sql input now s)
    unfolding ingest_signal
    ingest-Consistent input now s c =
        let id = if input.market_id == "" then s.cfg.default_market_id else input.market_id in
        let s₁ = ensure_market_exists sql id now s in
        let c₁ = (ensure-Consistent sql json before evts n id now s c).0 in
        (prune-Consistent sql json before evts n id now _
          (window-Consistent before evts n s₁ c₁ _)).0

    pub clear-Consistent :
        (market_id : String) (now : ℤ) (s : Service sql)
        → Consistent sql json before evts n s
        → Consistent sql json before evts n (clear_signals sql market_id now s)
    unfolding clear_signals
    clear-Consistent market_id now s c =
        let id = if market_id == "" then s.cfg.default_market_id else market_id in
        let s₁ = ensure_market_exists sql id now s in
        let c₁ = (ensure-Consistent sql json before evts n id now s c).0 in
        window-Consistent before evts n s₁ c₁ _

    update-Consistent :
        (id : String) (now : ℤ) (s : Service sql)
        → Consistent sql json before evts n s
        → Consistent sql json before evts n (update_replica_health sql id now s)
    update-Consistent id now s c =
        subst (Consistent sql json before evts n) (sym (update_lem sql id now s))
          (Consistent-replicas sql json before evts n s _ c)

    pub heartbeat-Consistent :
        (input : ReplicaHeartbeat) (now : ℤ) (s : Service sql)
        → Consistent sql json before evts n s
        → Consistent sql json before evts n (record_replica_heartbeat sql input now s)
    unfolding record_replica_heartbeat
    heartbeat-Consistent input now s c = elim (Bool-cases (input.replica_id == "")) [
      | inl empty ↦ rw (empty, record_replica_heartbeat) c
      | inr named ↦
          rw (named, record_replica_heartbeat)
            (update-Consistent input.replica_id now _
              (Consistent-replicas sql json before evts n s _ c))
    ]

    pub statuses-Consistent :
        (now : ℤ) (s : Service sql)
        → Consistent sql json before evts n s
        → Consistent sql json before evts n (replica_statuses sql now s).1
    unfolding replica_statuses
    statuses-Consistent now s c = refresh-Consistent sql json before evts n now s c

    unsubscribe-Advanced :
        (id : ℤ) (s : Service sql)
        → Consistent sql json before evts n s
        → Advanced sql json before evts n 0 (step (unsubscribes id) s)
    unfolding step
    unsubscribe-Advanced id s c =
        let (hub, e, v) = unsubscribe-Inv id s.hub c.inv.hub in
        rw (e, step)
          (quiet 0 (record s { hub = hub })
            (hub-Consistent before evts n s c hub v
              (unsubscribe-Buffered (sql.rows s.store) s.hub c.inv.contents id hub c.inv.hub e)))

    pub step-Advanced :
        (call : Call) (s : Service sql)
        → Consistent sql json before evts n s
        → n + emits call < 2 ^ 63
        → Advanced sql json before evts n (emits call) (step call s)
    unfolding step
    step-Advanced (ticks visits now) s c room =
        evaluate_all-Advanced sql json before evts n visits now s c room
    step-Advanced (ingests input now) s c room = quiet 0 _ (ingest-Consistent input now s c)
    step-Advanced (clears id now) s c room = quiet 0 _ (clear-Consistent id now s c)
    step-Advanced (heartbeats input now) s c room = quiet 0 _ (heartbeat-Consistent input now s c)
    step-Advanced (asks_statuses now) s c room = quiet 0 _ (statuses-Consistent now s c)
    step-Advanced (reads_events from_seq) s c room =
        quiet 0 _
          (store-Consistent before evts n s c _ (events_from_seq_lem sql from_seq s.store).1)
    step-Advanced (subscribes buffer) s c room = quiet 0 _ (
        hub-Consistent before evts n s c _ (subscribe-Inv buffer s.hub c.inv.hub)
          (subscribe-Buffered (sql.rows s.store) s.hub c.inv.contents buffer))
    step-Advanced (unsubscribes id) s c room = unsubscribe-Advanced id s c
    step-Advanced (receives ch) s c room = quiet 0 _ (
        hub-Consistent before evts n s c _ (receive-Inv ch s.hub c.inv.hub)
          (receive-Buffered (sql.rows s.store) s.hub c.inv.contents ch))
