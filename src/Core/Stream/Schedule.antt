-- ===== src/Core/Stream/Schedule.antt =====
-- A handler beside the calls of all other users of the service, in any interleaving.
use native.Mathlib.Nat.{add-zero, add_assoc}
use novig_take_home.Base.{
  ℕ, ◌+◌, ◌<◌, ◌^◌, ◌≡◌, refl, sym, ap, ◌∙◌, subst, List, [], ◌∷◌, ◌++◌, Option, none, some, arith,
  append_assoc, append-nil,
}
use novig_take_home.Base.Lists.{length, length-append}
use novig_take_home.Domain.{ReplicationEvent}
use novig_take_home.Domain.Json.{Json}
use novig_take_home.Core.EventStore.{Sqlite}
use novig_take_home.Core.EventStore.Log.{Sequenced, Sequenced-length}
use novig_take_home.Core.Service.State.{Service}
use novig_take_home.Core.Service.Consistency.{Consistent}
use novig_take_home.Core.Service.History
use novig_take_home.Core.Service.History.{Call, emits, step-Advanced}
use novig_take_home.Core.Stream.{Response, Ready, Stream, step}
use novig_take_home.Core.Stream.Since.{Sequenced-split}
use novig_take_home.Core.Stream.Serving.{Fine}
use novig_take_home.Core.Stream.Steps.{Fine-grow, step-Stepped}

-- A call of another user, or a step of the handler with what its `select` finds.
pub data Act : Type 0 where
  calls : Call → Act
  handles : Ready → Act

-- How many events may be emitted.
abbrev pub total_emits : List Act → ℕ
total_emits [] = 0
total_emits (calls c ∷ acts) = emits c + total_emits acts
total_emits (handles ready ∷ acts) = total_emits acts

module _ (http : Response) (sql : Sqlite) (json : Json) where
  -- `none` is a panic.
  abbrev pub call_beside : Stream http → Option (Service sql) → Option (Stream http × Service sql)
  call_beside st none = none
  call_beside st (some s) = some (st, s)

  unfoldable pub act : Act → Stream http → Service sql → Option (Stream http × Service sql)
  act (calls c) st s = call_beside st (History.step sql json c s)
  act (handles ready) st s = step http sql ready st s

  unfoldable pub run : List Act → Stream http → Service sql → Option (Stream http × Service sql)
  run [] st s = some (st, s)
  run (a ∷ acts) st s = elim (act a st s) [ none ↦ none | some (st', s') ↦ run acts st' s' ]

  -- What a run leaves: the core is consistent with a longer log, and the handler is fine with it.
  pub record Ran (f : ℕ) (before evts : List ReplicationEvent) (n : ℕ)
      (r : Option (Stream http × Service sql)) : Type 0 where
    pub stream : Stream http
    pub service : Service sql
    pub new : List ReplicationEvent
    pub returns : r ≡ some (stream, service)
    pub consistent : Consistent sql json before (evts ++ new) (n + length new) service
    pub fine : Fine http f (n + length new) (sql.rows service.store) stream
    pub room : n + length new + 1 < 2 ^ 63

  pub run-Ran :
      (f : ℕ) (before evts : List ReplicationEvent) (n : ℕ) (acts : List Act) (st : Stream http)
      (s : Service sql)
      → Consistent sql json before evts n s
      → Fine http f n (sql.rows s.store) st
      → n + total_emits acts + 1 < 2 ^ 63
      → Ran f before evts n (run acts st s)
  unfolding run act
  run-Ran f before evts n [] st s c v room = record {
    stream = st;
    service = s;
    new = [];
    returns = refl;
    consistent = rw (append-nil, add-zero) c;
    fine = rw add-zero v;
    room = omega (arith, room);
  }
  run-Ran f before evts n (handles ready ∷ acts) st s c v room =
      let a = step-Stepped http sql json f before evts n (omega arith) ready st s c v in
      let b = run-Ran f before evts n acts a.stream a.service a.consistent a.fine room in
      record {
        stream = b.stream;
        service = b.service;
        new = b.new;
        returns = rw (a.returns, run) b.returns;
        consistent = b.consistent;
        fine = b.fine;
        room = b.room;
      }
  run-Ran f before evts n (calls call ∷ acts) st s c v room =
      let a = step-Advanced sql json before evts n call s c (omega arith) in
      let rows' : sql.rows a.after.store ≡ sql.rows s.store ++ a.new =
        a.consistent.log
        ∙ sym (append_assoc before evts a.new)
        ∙ ap (λ z. z ++ a.new) (sym c.log) in
      let parts =
        Sequenced-split 0 (n + length a.new) (sql.rows s.store) a.new
          (subst (λ z. Sequenced 0 z (n + length a.new)) rows' a.consistent.inv.log) in
      let grown : Sequenced n a.new (n + length a.new) =
        subst (λ z. Sequenced z a.new (n + length a.new))
          (Sequenced-length 0 n (sql.rows s.store) c.inv.log) parts.1 in
      let b =
        run-Ran f before (evts ++ a.new) (n + length a.new) acts st a.after a.consistent
          (subst (λ z. Fine http f (n + length a.new) z st) (sym rows')
            (Fine-grow http f n (n + length a.new) (sql.rows s.store) a.new grown st v))
          (omega (arith, a.few)) in
      record {
        stream = b.stream;
        service = b.service;
        new = a.new ++ b.new;
        returns = rw (a.returns, run) b.returns;
        consistent = rw (length-append, ← add_assoc, ← append_assoc) b.consistent;
        fine = rw (length-append, ← add_assoc) b.fine;
        room = rw (length-append, ← add_assoc) b.room;
      }
