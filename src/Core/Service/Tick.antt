-- ===== src/Core/Service/Tick.antt =====
-- `evaluateAll` over time: the log stays gap-free and the markets stay its replay.
use native.Mathlib.Nat.{add-zero, add_assoc}
use novig_take_home.Base.{
  ℕ, ◌+◌, ◌<◌, ◌^◌, String, ◌≡◌, refl, sym, ap, subst, ◌∙◌, List, [], ◌∷◌, ◌++◌, Option, some,
  arith, append_assoc, append-nil, string_eq,
}
use novig_take_home.Base.Int.{ℤ}
use novig_take_home.Base.Lists.{length, length-append}
use novig_take_home.Base.Map.{Map, get}
use novig_take_home.Domain.{MarketState, ReplicationEvent}
use novig_take_home.Core.EventStore.{Sqlite}
use novig_take_home.Core.Service.State.{Service}
use novig_take_home.Core.Service.Signals.{ensure_market_exists, prune_signals}
use novig_take_home.Domain.Json.{Json}
use novig_take_home.Core.Service.Evaluate.{
  Visit, advance_market, evaluate_market, evaluate_each, evaluate_all, market_or_zero,
}
use novig_take_home.Core.ReplicaHealth.{ReplicaHealthRecord}
use novig_take_home.Core.Service.Replicas.{
  refresh_replica_health, refresh_each, update_replica_health,
}
use novig_take_home.Core.Service.Consistency.{
  Consistent, Advanced, ensure-Consistent, prune-Consistent, advance-Advanced,
}

module _ (sql : Sqlite) (json : Json) (before : List ReplicationEvent) where
  evaluate_market-Advanced :
      (evts : List ReplicationEvent) (n : ℕ) (visit : Visit) (now : ℤ) (s : Service sql)
      → Consistent sql json before evts n s
      → n + 1 < 2 ^ 63
      → Advanced sql json before evts n 1 (evaluate_market sql json visit now s)
  unfolding evaluate_market
  evaluate_market-Advanced evts n visit now s c room =
      let id = visit.market_id in
      let s₁ = ensure_market_exists sql id now s in
      let (c₁, (m, found)) = ensure-Consistent sql json before evts n id now s c in
      let s₂ = prune_signals sql id now s₁ in
      let (c₂, same) = prune-Consistent sql json before evts n id now s₁ c₁ in
      let there : get s₂.markets id ≡ some m =
        ap (λ (l : Map String MarketState). get l id) same ∙ found in
      subst
        (λ (o : Option MarketState).
          Advanced sql json before evts n 1
            (advance_market sql json visit now (market_or_zero o) s₂))
        (sym there)
        (advance-Advanced sql json before evts n visit now m s₂ c₂ room (c₂.members id m there))

  evaluate_each-Advanced :
      (evts : List ReplicationEvent) (n : ℕ) (visits : List Visit) (now : ℤ) (s : Service sql)
      → Consistent sql json before evts n s
      → n + length visits < 2 ^ 63
      → Advanced sql json before evts n (length visits) (evaluate_each sql json visits now s)
  unfolding evaluate_each
  evaluate_each-Advanced evts n [] now s c room = record {
    after = s;
    new = [];
    returns = refl;
    consistent = rw (append-nil, add-zero) c;
    few = omega arith;
  }
  evaluate_each-Advanced evts n (visit ∷ visits) now s c room =
      let a = evaluate_market-Advanced evts n visit now s c (omega arith) in
      let b =
        evaluate_each-Advanced (evts ++ a.new) (n + length a.new) visits now a.after a.consistent
          (omega (arith, a.few)) in
      record {
        after = b.after;
        new = a.new ++ b.new;
        returns = rw (a.returns, evaluate_each) b.returns;
        consistent = rw (length-append, ← add_assoc, ← append_assoc) b.consistent;
        few = rw length-append (omega (arith, a.few, b.few));
      }

module _ (sql : Sqlite) where
  pub update_lem :
      (id : String) (now : ℤ) (s : Service sql)
      → update_replica_health sql id now s
        ≡ record s { replicas = (update_replica_health sql id now s).replicas }
  unfolding update_replica_health
  update_lem id now s = ground arith

  refresh_each_lem :
      (m : Map String ReplicaHealthRecord) (now : ℤ) (s : Service sql)
      → refresh_each sql m now s ≡ record s { replicas = (refresh_each sql m now s).replicas }
  unfolding refresh_each
  refresh_each_lem [] now s = refl
  refresh_each_lem ((id, r) ∷ m) now s =
      let s' = update_replica_health sql id now s in
      let R = (refresh_each sql m now s').replicas in
      refresh_each_lem m now s'
      ∙ ap (λ (x : Service sql). record x { replicas = R }) (update_lem id now s)

  pub refresh_lem :
      (now : ℤ) (s : Service sql)
      → refresh_replica_health sql now s
        ≡ record s { replicas = (refresh_replica_health sql now s).replicas }
  unfolding refresh_replica_health
  refresh_lem now s = refresh_each_lem s.replicas now s

module _ (sql : Sqlite) (json : Json) (before evts : List ReplicationEvent) (n : ℕ) where
  -- The replicas' records are no part of the invariant.
  pub Consistent-replicas :
      (s : Service sql) (R : Map String ReplicaHealthRecord)
      → Consistent sql json before evts n s
      → Consistent sql json before evts n (record s { replicas = R })
  Consistent-replicas s R c = record {
    inv = record { log = c.inv.log; last = c.inv.last; hub = c.inv.hub; contents = c.inv.contents };
    log = c.log;
    members = c.members;
    replays = c.replays;
    sound = c.sound;
  }

  pub refresh-Consistent :
      (now : ℤ) (s : Service sql)
      → Consistent sql json before evts n s
      → Consistent sql json before evts n (refresh_replica_health sql now s)
  refresh-Consistent now s c =
      subst (Consistent sql json before evts n) (sym (refresh_lem sql now s))
        (Consistent-replicas s (refresh_replica_health sql now s).replicas c)

module _ (sql : Sqlite) (json : Json) (before evts : List ReplicationEvent) (n : ℕ) where
  -- From a consistent state, and with room for the numbers in 64 bits, a tick returns, whatever
  -- the order of its visits and whichever statements fail. It appends at most one event for each
  -- visit; the log stays gap-free, with the service's number at its end; the markets stay the
  -- replay of the log; and each event's type agrees with the state that it carries.
  pub evaluate_all-Advanced :
      (visits : List Visit) (now : ℤ) (s : Service sql)
      → Consistent sql json before evts n s
      → n + length visits < 2 ^ 63
      → Advanced sql json before evts n (length visits) (evaluate_all sql json visits now s)
  unfolding evaluate_all
  evaluate_all-Advanced visits now s c room =
      let a = evaluate_each-Advanced sql json before evts n visits now s c room in
      record {
        after = refresh_replica_health sql now a.after;
        new = a.new;
        returns = rw (a.returns, evaluate_all) refl;
        consistent =
            refresh-Consistent sql json before (evts ++ a.new) (n + length a.new) now a.after
              a.consistent;
        few = a.few;
      }
