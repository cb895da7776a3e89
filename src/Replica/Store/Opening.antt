-- ===== src/Replica/Store/Opening.antt =====
-- internal/replica/store.go: `InMemoryDSN`, `NewStore`, `init` and `Close`. `url.PathEscape` and the
-- driver are parameters.
use Prim.Native.String.{◌++◌ as ◌<>◌}
use novig_take_home.Base.{
  String, ◌≡◌, refl, ap, ◌∙◌, List, [], ◌∷◌, Option, none, some, Option-cases, inl, inr, true,
  if◌then◌else◌, ◌==◌, string_eq,
}
use novig_take_home.Base.Int.{pos}
use novig_take_home.Base.Errors.{Error, wrap, ok, err, Result-cases}
use novig_take_home.Base.Database.{Driver, Opened, failed, initialised, HasFailed, IsSound}
use novig_take_home.Replica.Store.{AppliedEvent, Checkpoint}

unfoldable pub in_memory_dsn : (String → String) → String → String
in_memory_dsn path_escape replica_id =
    "file:replica_"
    <> path_escape (if replica_id == "" then "replica" else replica_id)
    <> "?mode=memory&cache=shared"

-- The tables that there are; consumer_checkpoint has a row, or not yet.
pub record Schema : Type 0 where
  pub applied_events : Option (List AppliedEvent)
  pub consumer_checkpoint : Option (Option Checkpoint)

pub data Statement : Type 0 where
  create_applied_events create_consumer_checkpoint seed_checkpoint : Statement

abbrev or_empty : Option (List AppliedEvent) → List AppliedEvent
or_empty none = []
or_empty (some rows) = rows

abbrev or_no_row : Option (Option Checkpoint) → Option Checkpoint
or_no_row none = none
or_no_row (some row) = row

abbrev or_zero : Option Checkpoint → Checkpoint
or_zero none = record { last_applied_seq = pos 0; updated_at_ms = pos 0 }
or_zero (some row) = row

abbrev seeded : Option (Option Checkpoint) → Option (Option Checkpoint)
seeded none = none
seeded (some row) = some (some (or_zero row))

-- CREATE TABLE IF NOT EXISTS for the two tables, and INSERT OR IGNORE of the row with the key 1.
unfoldable pub effect : Statement → Schema → Schema
effect create_applied_events s = record s { applied_events = some (or_empty s.applied_events) }
effect create_consumer_checkpoint s = record s {
  consumer_checkpoint = some (or_no_row s.consumer_checkpoint);
}
effect seed_checkpoint s = record s { consumer_checkpoint = seeded s.consumer_checkpoint }

abbrev pub statements : List Statement
statements = create_applied_events ∷ create_consumer_checkpoint ∷ seed_checkpoint ∷ []

module _ {Db : Type 0} (d : Driver Db effect) where
  -- The loop over the statements.
  unfoldable pub exec_all : List Statement → Db → Option Error × Db
  exec_all [] db = (none, db)
  exec_all (stmt ∷ stmts) db =
      let (problem, db') = d.exec stmt db in
      let rest = exec_all stmts db' in
      elim problem [ none ↦ rest | some e ↦ (some (wrap "init replica sqlite: %w" [] e), db') ]

  unfoldable pub init : Db → Option Error × Db
  unfolding exec_all
  init db = exec_all statements db

  unfoldable pub new_store : String → Opened Db
  unfolding init initialised
  new_store dsn = elim (d.open_dsn dsn) [
    | err e ↦ failed (wrap "open sqlite: %w" [] e) none
    | ok db ↦ initialised d (init db)
  ]

  abbrev pub close : Db → Option Error × Db
  close db = d.close db

-- Both tables, with the rows that there were, and the checkpoint that there was, or one of zero.
abbrev pub ready : Schema → Schema
ready s = record {
  applied_events = some (or_empty s.applied_events);
  consumer_checkpoint = some (some (or_zero (or_no_row s.consumer_checkpoint)));
}

abbrev effects : List Statement → Schema → Schema
effects [] s = s
effects (stmt ∷ stmts) s = effects stmts (effect stmt s)

effects_lem : (s : Schema) → effects statements s ≡ ready s
unfolding effect
effects_lem s = refl

module _ {Db : Type 0} (d : Driver Db effect) where
  exec_all-is_open :
      (stmts : List Statement) (db : Db) → d.is_open (exec_all d stmts db).1 ≡ d.is_open db
  unfolding exec_all
  exec_all-is_open [] db = refl
  exec_all-is_open (stmt ∷ stmts) db = elim (Option-cases (d.exec stmt db).0) [
    | inl e ↦ rw (e, exec_all) (exec_all-is_open stmts (d.exec stmt db).1 ∙ d.exec_keeps stmt db)
    | inr (x, e) ↦ rw (e, exec_all) (d.exec_keeps stmt db)
  ]

  exec_all-effects :
      (stmts : List Statement) (db : Db)
      → (exec_all d stmts db).0 ≡ none
      → d.schema (exec_all d stmts db).1 ≡ effects stmts (d.schema db)
  unfolding exec_all
  exec_all-effects [] db h = refl
  exec_all-effects (stmt ∷ stmts) db h = elim (Option-cases (d.exec stmt db).0) [
    | inl e ↦
        rw (e, exec_all)
          (exec_all-effects stmts (d.exec stmt db).1 (rw (e, exec_all) at h)
            ∙ ap (effects stmts) (d.exec_done stmt db e))
    | inr (x, e) ↦ let impossible = (rw (e, exec_all) at h) in cc impossible
  ]

  exec_all-HasFailed :
      (stmts : List Statement) (db : Db) (e : Error)
      → (exec_all d stmts db).0 ≡ some e
      → HasFailed d
  unfolding exec_all
  exec_all-HasFailed [] db e h = absurd (cc h)
  exec_all-HasFailed (stmt ∷ stmts) db e h = elim (Option-cases (d.exec stmt db).0) [
    | inl done ↦ exec_all-HasFailed stmts (d.exec stmt db).1 e (rw (done, exec_all) at h)
    | inr (x, failing) ↦ (stmt, db, x, failing)
  ]

  initialised-IsSound :
      (dsn : String) (db : Db) (r : Option Error × Db)
      → d.open_dsn dsn ≡ ok db
      → d.is_open r.1 ≡ true
      → ((r.0 ≡ none) → d.schema r.1 ≡ ready (d.schema db))
      → ((e : Error) → r.0 ≡ some e → HasFailed d)
      → IsSound d ready dsn (initialised d r)
  unfolding initialised
  initialised-IsSound dsn db (none, db') found on done fault = (db, found, on, done refl)
  initialised-IsSound dsn db (some e, db') found on done fault = (d.close_closes db', fault e refl)

  pub new_store-IsSound : (dsn : String) → IsSound d ready dsn (new_store d dsn)
  unfolding new_store init
  new_store-IsSound dsn = elim (Result-cases (d.open_dsn dsn)) [
    | inl (db, e) ↦
        rw (e, new_store)
          (initialised-IsSound dsn db (exec_all d statements db) e
            (exec_all-is_open statements db ∙ d.open_dsn_opens dsn db e)
            (λ h. exec_all-effects statements db h ∙ effects_lem (d.schema db))
            (exec_all-HasFailed statements db))
    | inr (x, e) ↦ rw (e, new_store) (x, e)
  ]
