-- ===== src/Replica/Store/Tests.antt =====
-- A commit of an event in tables in memory.
use novig_take_home.Base.{Bool, sym, ap, some, none, []}
use novig_take_home.Base.Errors.{ok_injective}
use novig_take_home.Base.Database.{Driver, opened, initialised}
use novig_take_home.Replica.Store.Opening.{Schema, effect, exec_all, init, new_store}
use novig_take_home.Base.{◌≡◌, refl, true, false}
use novig_take_home.Base.Int.{pos}
use novig_take_home.Base.Errors.{ok}
use novig_take_home.Replica.Fixture.{in_memory, empty_tables}
use novig_take_home.Replica.Store.{
  is_applied, insert_or_ignore, finish, apply_in_tx, commit_in_tx, commit_applied_event,
}
use novig_take_home.Replica.Store.Atomicity.{Committed, commit_applied_event-Committed}

twice :
    let first = commit_applied_event in_memory "e1" (pos 1) (pos 50) empty_tables in
    let second = commit_applied_event in_memory "e1" (pos 1) (pos 60) first.1 in
    (first.0 ≡ ok true) × (second.0 ≡ ok false)
unfolding commit_applied_event commit_in_tx apply_in_tx finish insert_or_ignore is_applied
twice = (refl, refl)

commit_applied_event_example :
    let r = commit_applied_event in_memory "e1" (pos 1) (pos 50) empty_tables in
    Committed in_memory "e1" (pos 1) (pos 50) empty_tables r.0 r.1
commit_applied_event_example =
    commit_applied_event-Committed in_memory "e1" (pos 1) (pos 50) empty_tables

-- A shared database in memory, that a store of an earlier run has left at number 7.
abbrev Disk : Type 0
Disk = Bool × Schema

abbrev left_at_seven : Disk
left_at_seven = (
  true,
  record {
    applied_events = some [];
    consumer_checkpoint = some (some (record { last_applied_seq = pos 7; updated_at_ms = pos 9 }));
  },
)

abbrev shared_memory : Driver Disk effect
shared_memory = record {
  is_open = λ db. db.0;
  schema = λ db. db.1;
  open_dsn = λ dsn. ok left_at_seven;
  exec = λ stmt db. (none, (db.0, effect stmt db.1));
  close = λ db. (none, (false, db.1));
  open_dsn_opens = λ dsn db h. sym (ap (λ (x : Disk). x.0) (ok_injective _ _ h));
  exec_keeps = λ stmt db. refl;
  exec_done = λ stmt db h. refl;
  close_closes = λ db. refl;
}

reopened : new_store shared_memory "file:replica_r1?mode=memory&cache=shared" ≡ opened left_at_seven
unfolding new_store exec_all init effect initialised
reopened = refl
