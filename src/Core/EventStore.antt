-- ===== src/Core/EventStore.antt =====
-- internal/core/event_store.go. SQLite is a parameter: it may fail at any statement, and where it
-- does not, the statement does to the rows of event_log what its text says, under the schema's
-- keys. The proofs are in the modules below.
pub mod Log
pub mod Opening
mod Tests
use novig_take_home.Base.{
  String, Bool, true, false, ◌≡◌, ◌&&◌, ◌||◌, not, List, [], ◌∷◌, ◌++◌, map, Option, none, some,
  ◌==◌, if◌then◌else◌, string_eq,
}
use novig_take_home.Base.Int.{ℤ, pos, leb_ℤ, ltb_ℤ, int_eq}
use novig_take_home.Base.Errors.{Error, errorf, wrap, Result, ok, err}
use novig_take_home.Domain.{ReplicationEvent}

-- `seq INTEGER PRIMARY KEY, event_id TEXT UNIQUE`: whether a row may stand beside the others.
unfoldable pub is_new : ReplicationEvent → List ReplicationEvent → Bool
is_new evt [] = true
is_new evt (row ∷ rows) =
    not (row.seq == evt.seq) && not (row.event_id == evt.event_id) && is_new evt rows

-- ORDER BY seq ASC
unfoldable pub insert_by_seq : ReplicationEvent → List ReplicationEvent → List ReplicationEvent
insert_by_seq evt [] = evt ∷ []
insert_by_seq evt (row ∷ rows) =
    if leb_ℤ evt.seq row.seq then evt ∷ row ∷ rows else row ∷ insert_by_seq evt rows

-- SELECT … FROM event_log WHERE seq >= ? ORDER BY seq ASC
unfoldable pub select_from : ℤ → List ReplicationEvent → List ReplicationEvent
unfolding insert_by_seq
select_from from_seq [] = []
select_from from_seq (row ∷ rows) =
    let rest = select_from from_seq rows in
    if leb_ℤ from_seq row.seq then insert_by_seq row rest else rest

-- SELECT MAX(seq) FROM event_log, `none` for NULL
unfoldable pub max_seq : List ReplicationEvent → Option ℤ
max_seq [] = none
max_seq (row ∷ rows) = elim (max_seq rows) [
  | none ↦ some row.seq
  | some m ↦ some (if ltb_ℤ m row.seq then row.seq else m)
]

-- The driver and the engine. A query yields its rows one by one, each of which may fail to scan,
-- and then the error of the iteration, if any.
pub record Sqlite : Type 1 where
  pub Db : Type 0
  pub rows : Db → List ReplicationEvent
  pub exec_insert : ReplicationEvent → Db → Option Error × Db
  pub query_from : ℤ → Db → Result (List (Result ReplicationEvent) × Option Error) × Db
  pub query_max : Db → Result (Option ℤ) × Db
  -- A statement that fails changes nothing; one that succeeds has respected the keys.
  pub insert_done :
      (evt : ReplicationEvent) (db db' : Db)
      → exec_insert evt db ≡ (none, db')
      → (is_new evt (rows db) ≡ true) × (rows db' ≡ rows db ++ evt ∷ [])
  pub insert_failed :
      (evt : ReplicationEvent) (db db' : Db) (e : Error)
      → exec_insert evt db ≡ (some e, db')
      → rows db' ≡ rows db
  pub query_from_keeps : (from_seq : ℤ) (db : Db) → rows (query_from from_seq db).1 ≡ rows db
  pub query_from_rows :
      (from_seq : ℤ) (db : Db) (found : List ReplicationEvent)
      → (query_from from_seq db).0 ≡ ok (map ok found, none)
      → found ≡ select_from from_seq (rows db)
  pub query_max_keeps : (db : Db) → rows (query_max db).1 ≡ rows db
  pub query_max_value : (db : Db) (m : Option ℤ) → (query_max db).0 ≡ ok m → m ≡ max_seq (rows db)

-- `for rows.Next()` with its `Scan`, and `rows.Err()` after it.
unfoldable pub scan_rows :
    List (Result ReplicationEvent) → Option Error → Result (List ReplicationEvent)
scan_rows [] none = ok []
scan_rows [] (some e) = err (wrap "iterate event_log: %w" [] e)
scan_rows (err e ∷ rest) last = err (wrap "scan event_log: %w" [] e)
scan_rows (ok evt ∷ rest) last = elim (scan_rows rest last) [
  | ok out ↦ ok (evt ∷ out)
  | err e ↦ err e
]

unfoldable pub read_events :
    Result (List (Result ReplicationEvent) × Option Error) → Result (List ReplicationEvent)
unfolding scan_rows
read_events (err e) = err (wrap "query event_log: %w" [] e)
read_events (ok (found, last)) = scan_rows found last

-- `sql.NullInt64`, with zero for NULL.
unfoldable pub read_max : Result (Option ℤ) → Result ℤ
read_max (err e) = err (wrap "query last seq: %w" [] e)
read_max (ok none) = ok (pos 0)
read_max (ok (some last)) = ok last

module _ (sql : Sqlite) where
  open sql use {Db, exec_insert, query_from, query_max}

  -- `none` is a nil error.
  unfoldable pub insert : ReplicationEvent → Db → Option Error × Db
  insert evt db =
      let (failed, db') = exec_insert evt db in
      (elim failed [ none ↦ none | some e ↦ some (wrap "insert event_log: %w" [] e) ], db')

  unfoldable pub events_from_seq : ℤ → Db → Result (List ReplicationEvent) × Db
  unfolding read_events
  events_from_seq from_seq db =
      let (answer, db') = query_from from_seq db in (read_events answer, db')

  unfoldable pub last_seq : Db → Result ℤ × Db
  unfolding read_max
  last_seq db = let (answer, db') = query_max db in (read_max answer, db')
