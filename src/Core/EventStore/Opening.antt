-- ===== src/Core/EventStore/Opening.antt =====
-- internal/core/event_store.go: `InMemoryDSN`, `NewEventStore`, `init` and `Close`. `url.PathEscape`
-- and the driver are parameters.
use Prim.Native.String.{◌++◌ as ◌<>◌}
use novig_take_home.Base.{
  String, ◌≡◌, ◌∙◌, List, [], Option, none, some, Option-cases, inl, inr, if◌then◌else◌, ◌==◌,
  string_eq,
}
use novig_take_home.Base.Errors.{Error, wrap, ok, err, Result-cases}
use novig_take_home.Base.Database.{Driver, Opened, failed, initialised, IsSound}
use novig_take_home.Domain.{ReplicationEvent}

unfoldable pub in_memory_dsn : (String → String) → String → String
in_memory_dsn path_escape db_name =
    "file:"
    <> path_escape (if db_name == "" then "core_events" else db_name)
    <> "?mode=memory&cache=shared"

-- The rows of event_log, if there is the table.
abbrev pub Schema : Type 0
Schema = Option (List ReplicationEvent)

-- The one statement.
pub data Statement : Type 0 where
  create_event_log : Statement

abbrev or_empty : Schema → List ReplicationEvent
or_empty none = []
or_empty (some rows) = rows

abbrev pub ready : Schema → Schema
ready s = some (or_empty s)

-- CREATE TABLE IF NOT EXISTS
unfoldable pub effect : Statement → Schema → Schema
effect create_event_log s = ready s

module _ {Db : Type 0} (d : Driver Db effect) where
  unfoldable pub init : Db → Option Error × Db
  init db =
      let (problem, db') = d.exec create_event_log db in
      (elim problem [ none ↦ none | some e ↦ some (wrap "create event_log: %w" [] e) ], db')

  unfoldable pub new_event_store : String → Opened Db
  unfolding init initialised
  new_event_store dsn = elim (d.open_dsn dsn) [
    | err e ↦ failed (wrap "open sqlite: %w" [] e) none
    | ok db ↦ initialised d (init db)
  ]

  abbrev pub close : Db → Option Error × Db
  close db = d.close db

  init-IsSound :
      (dsn : String) (db : Db)
      → d.open_dsn dsn ≡ ok db
      → IsSound d ready dsn (initialised d (init db))
  unfolding init initialised effect
  init-IsSound dsn db found = elim (Option-cases (d.exec create_event_log db).0) [
    | inl e ↦
        rw (e, init, initialised)
          (
            db,
            found,
            d.exec_keeps create_event_log db ∙ d.open_dsn_opens dsn db found,
            d.exec_done create_event_log db e,
          )
    | inr (x, e) ↦ rw (e, init, initialised) (d.close_closes _, (create_event_log, db, x, e))
  ]

  -- After an error of `init` the database is closed; a store that is returned is open, and has the
  -- log, with the rows that were there.
  pub new_event_store-IsSound : (dsn : String) → IsSound d ready dsn (new_event_store dsn)
  unfolding new_event_store
  new_event_store-IsSound dsn = elim (Result-cases (d.open_dsn dsn)) [
    | inl (db, e) ↦ rw (e, new_event_store) (init-IsSound dsn db e)
    | inr (x, e) ↦ rw (e, new_event_store) (x, e)
  ]
