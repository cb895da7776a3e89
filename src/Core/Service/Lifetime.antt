-- ===== src/Core/Service/Lifetime.antt =====
-- The core from its start.
use native.Mathlib.Nat.{add-zero, add_assoc}
use novig_take_home.Base.{
  ℕ, ◌+◌, ◌<◌, ◌^◌, String, ◌≡◌, refl, sym, ap, subst, ◌∙◌, List, [], ◌∷◌, ◌++◌, some, arith,
  append_assoc, append-nil, string_eq, inl, inr,
}
use novig_take_home.Base.Int.{ℤ, pos}
use novig_take_home.Base.Errors.{Result, ok, err}
use novig_take_home.Base.Lists.{length, length-append}
use novig_take_home.Base.Map.{get}
use novig_take_home.Base.Map.Keys.{get-cons_inv}
use novig_take_home.Domain.{MarketState, ReplicationEvent}
use novig_take_home.Core.EventStore.{Sqlite, last_seq}
use novig_take_home.Core.EventStore.Log.{Sequenced, last_seq-Sequenced, rows-last_seq}
use novig_take_home.Core.Hub.Invariant.{new_sse_hub-Inv}
use novig_take_home.Core.Hub.Contents.{new_sse_hub-Buffered}
use novig_take_home.Core.Service.State.{
  Service, ServiceConfig, new_service, start_service, initial_service, with_defaults, new_market,
}
use novig_take_home.Domain.Json.{Json}
use novig_take_home.Core.Service.Replay.{new_market-Member, last_state}
use novig_take_home.Core.Service.Consistency.{Consistent, Advanced}
use novig_take_home.Core.Service.History.{Call, emits, run, step-Advanced}

abbrev pub total_emits : List Call → ℕ
total_emits [] = 0
total_emits (c ∷ calls) = emits c + total_emits calls

module _ (sql : Sqlite) (json : Json) (before : List ReplicationEvent) where
  run-Advanced :
      (evts : List ReplicationEvent) (n : ℕ) (calls : List Call) (s : Service sql)
      → Consistent sql json before evts n s
      → n + total_emits calls < 2 ^ 63
      → Advanced sql json before evts n (total_emits calls) (run sql json calls s)
  unfolding run
  run-Advanced evts n [] s c room = record {
    after = s;
    new = [];
    returns = refl;
    consistent = rw (append-nil, add-zero) c;
    few = omega arith;
  }
  run-Advanced evts n (call ∷ calls) s c room =
      let a = step-Advanced sql json before evts n call s c (omega arith) in
      let b =
        run-Advanced (evts ++ a.new) (n + length a.new) calls a.after a.consistent
          (omega (arith, a.few)) in
      record {
        after = b.after;
        new = a.new ++ b.new;
        returns = rw (a.returns, run) b.returns;
        consistent = rw (length-append, ← add_assoc, ← append_assoc) b.consistent;
        few = rw length-append (omega (arith, a.few, b.few));
      }

module _ (sql : Sqlite) (json : Json) (n : ℕ) (db : sql.Db)
    (log : Sequenced 0 (sql.rows db) n) where
  first_market :
      (id j : String) (now : ℤ) (m : MarketState)
      → get ((id, new_market id now) ∷ []) j ≡ some m
      → (id ≡ j) × (m ≡ new_market j now)
  unfolding get
  first_market id j now m e = elim (get-cons_inv id j (new_market id now) m [] e) [
    | inl (i, w) ↦ (i, sym w ∙ ap (λ k. new_market k now) i)
    | inr (_, gone) ↦ cc
  ]

  initial-Consistent :
      (cfg : ServiceConfig) (now : ℤ) (store : sql.Db) (last : ℤ)
      → sql.rows store ≡ sql.rows db
      → last ≡ pos n
      → Consistent sql json (sql.rows db) [] n (initial_service sql cfg now store last)
  unfolding last_state
  initial-Consistent cfg now store last same value = record {
    inv = record {
      log = rw same log;
      last = value;
      hub = new_sse_hub-Inv;
      contents = new_sse_hub-Buffered (sql.rows store);
    };
    log = rw append-nil same;
    members =
        λ id m e. rw (first_market cfg.default_market_id id now m e).1 (new_market-Member id now);
    replays = record {
      present = λ id m e. inr (refl, now, (first_market cfg.default_market_id id now m e).1);
      absent = λ id e. refl;
    };
    sound = tt;
  }

  started :
      (cfg : ServiceConfig) (now : ℤ) (store : sql.Db) (r : Result ℤ) (s : Service sql)
      → sql.rows store ≡ sql.rows db
      → ((last : ℤ) → r ≡ ok last → last ≡ pos n)
      → start_service sql cfg now store r ≡ ok s
      → Consistent sql json (sql.rows db) [] n s
  unfolding start_service
  started cfg now store (err e) s same value h = cc
  started cfg now store (ok last) s same value h =
      let e : initial_service sql cfg now store last ≡ s = cc in
      subst (Consistent sql json (sql.rows db) [] n) e
        (initial-Consistent cfg now store last same (value last refl))

  -- A service that starts on a gap-free log is consistent with it: it goes on from its last number.
  new_service-Consistent :
      (cfg : ServiceConfig) (now : ℤ) (s : Service sql)
      → new_service sql db cfg now ≡ ok s
      → Consistent sql json (sql.rows db) [] n s
  unfolding new_service
  new_service-Consistent cfg now s h =
      started (with_defaults cfg) now (last_seq sql db).1 (last_seq sql db).0 s
        (rows-last_seq sql db) (λ last e. last_seq-Sequenced sql n db last log e) h

  -- A core that starts on a log which runs gap-free from 1 to n, and then serves any calls in any
  -- order that leave room for the numbers in 64 bits, never panics. Its log is still gap-free,
  -- begins with the log at the start and has at most one new event for each visit of a tick; the
  -- service's number is the log's last; each market holds the state of its last new event, or is
  -- as it was first seen; and each new event's type agrees with the state that it carries.
  pub run-new_service :
      (cfg : ServiceConfig) (now : ℤ) (s : Service sql) (calls : List Call)
      → new_service sql db cfg now ≡ ok s
      → n + total_emits calls < 2 ^ 63
      → Advanced sql json (sql.rows db) [] n (total_emits calls) (run sql json calls s)
  run-new_service cfg now s calls h room =
      run-Advanced sql json (sql.rows db) [] n calls s (new_service-Consistent cfg now s h) room
