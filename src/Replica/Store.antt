-- ===== src/Replica/Store.antt =====
-- internal/replica/store.go. SQLite and database/sql are a parameter: a statement may fail, and one
-- that does not does to the two tables what its text says. The proofs are in the modules below.
pub mod Atomicity
pub mod Opening
mod Tests
use novig_take_home.Base.{
  String, Bool, true, false, ◌≡◌, List, [], ◌∷◌, ◌++◌, Option, none, some, ◌==◌, if◌then◌else◌,
  string_eq,
}
use novig_take_home.Base.Int.{ℤ, pos, ltb_ℤ, int_eq}
use novig_take_home.Base.Errors.{Error, wrap, Result, ok, err}

-- A row of applied_events, whose key is `event_id`.
pub record AppliedEvent : Type 0 where
  pub event_id : String
  pub seq : ℤ
  pub applied_at_ms : ℤ

-- The row of consumer_checkpoint.
pub record Checkpoint : Type 0 where
  pub last_applied_seq : ℤ
  pub updated_at_ms : ℤ

pub record Tables : Type 0 where
  pub applied_events : List AppliedEvent
  pub checkpoint : Checkpoint

-- SELECT COUNT(1) FROM applied_events WHERE event_id=?, as a test: the key stands at most once.
unfoldable pub is_applied : String → List AppliedEvent → Bool
is_applied event_id [] = false
is_applied event_id (row ∷ rows) =
    if row.event_id == event_id then true else is_applied event_id rows

unfoldable pub count_applied : String → List AppliedEvent → ℤ
unfolding is_applied
count_applied event_id rows = if is_applied event_id rows then pos 1 else pos 0

-- INSERT OR IGNORE INTO applied_events: the rows afterwards, and the rows affected.
unfoldable pub insert_or_ignore : AppliedEvent → Tables → ℤ × Tables
unfolding is_applied
insert_or_ignore row t =
    if is_applied row.event_id t.applied_events
    then (pos 0, t)
    else (pos 1, record t { applied_events = t.applied_events ++ row ∷ [] })

-- UPDATE consumer_checkpoint SET last_applied_seq=?, updated_at_ms=? WHERE id=1
abbrev pub update_checkpoint : ℤ → ℤ → Tables → Tables
update_checkpoint seq ts_ms t = record t {
  checkpoint = record { last_applied_seq = seq; updated_at_ms = ts_ms };
}

-- The tables of a transaction are those that its commit would leave.
pub record Sqlite : Type 1 where
  pub Db : Type 0
  pub Tx : Type 0
  pub tables : Db → Tables
  pub pending : Tx → Tables
  pub query_checkpoint : Db → Result ℤ × Db
  pub query_count : String → Db → Result ℤ × Db
  pub exec_update : ℤ → ℤ → Db → Option Error × Db
  pub begin : Db → Result Tx × Db
  -- The result of the statement, whose `RowsAffected` may fail too.
  pub tx_insert : AppliedEvent → Tx → Result (Result ℤ) × Tx
  pub tx_update : ℤ → ℤ → Tx → Option Error × Tx
  pub commit : Tx → Db → Option Error × Db
  -- `Rollback`, which does nothing after a commit
  pub rollback : Tx → Db → Db
  pub query_checkpoint_keeps : (db : Db) → tables (query_checkpoint db).1 ≡ tables db
  pub query_checkpoint_value :
      (db : Db) (seq : ℤ)
      → (query_checkpoint db).0 ≡ ok seq
      → seq ≡ (tables db).checkpoint.last_applied_seq
  pub query_count_keeps :
      (event_id : String) (db : Db) → tables (query_count event_id db).1 ≡ tables db
  pub query_count_value :
      (event_id : String) (db : Db) (count : ℤ)
      → (query_count event_id db).0 ≡ ok count
      → count ≡ count_applied event_id (tables db).applied_events
  pub update_done :
      (seq ts_ms : ℤ) (db db' : Db)
      → exec_update seq ts_ms db ≡ (none, db')
      → tables db' ≡ update_checkpoint seq ts_ms (tables db)
  pub update_failed :
      (seq ts_ms : ℤ) (db db' : Db) (e : Error)
      → exec_update seq ts_ms db ≡ (some e, db')
      → tables db' ≡ tables db
  pub begin_keeps : (db : Db) → tables (begin db).1 ≡ tables db
  pub begin_sees : (db : Db) (tx : Tx) → (begin db).0 ≡ ok tx → pending tx ≡ tables db
  pub tx_insert_done :
      (row : AppliedEvent) (tx tx' : Tx) (affected : ℤ)
      → tx_insert row tx ≡ (ok (ok affected), tx')
      → (affected, pending tx') ≡ insert_or_ignore row (pending tx)
  pub tx_update_done :
      (seq ts_ms : ℤ) (tx tx' : Tx)
      → tx_update seq ts_ms tx ≡ (none, tx')
      → pending tx' ≡ update_checkpoint seq ts_ms (pending tx)
  pub commit_done : (tx : Tx) (db db' : Db) → commit tx db ≡ (none, db') → tables db' ≡ pending tx
  pub commit_failed :
      (tx : Tx) (db db' : Db) (e : Error) → commit tx db ≡ (some e, db') → tables db' ≡ tables db
  pub rollback_keeps : (tx : Tx) (db : Db) → tables (rollback tx db) ≡ tables db

module _ (sql : Sqlite) where
  open sql use {
    Db, Tx, query_checkpoint, query_count, exec_update, begin, tx_insert, tx_update, commit,
    rollback,
  }

  unfoldable pub get_checkpoint : Db → Result ℤ × Db
  get_checkpoint db =
      let (answer, db') = query_checkpoint db in
      (elim answer [ ok seq ↦ ok seq | err e ↦ err (wrap "get checkpoint: %w" [] e) ], db')

  unfoldable pub set_checkpoint : ℤ → ℤ → Db → Option Error × Db
  set_checkpoint seq updated_at_ms db =
      let (failed, db') = exec_update seq updated_at_ms db in
      (elim failed [ none ↦ none | some e ↦ some (wrap "set checkpoint: %w" [] e) ], db')

  unfoldable pub is_event_applied : String → Db → Result Bool × Db
  is_event_applied event_id db =
      let (answer, db') = query_count event_id db in
      (
        elim answer [
          | ok count ↦ ok (ltb_ℤ (pos 0) count)
          | err e ↦ err (wrap "is event applied: %w" [] e)
        ],
        db',
      )

  -- A commit, then the deferred `Rollback`.
  unfoldable pub finish : String → Bool → Tx → Db → Result Bool × Db
  finish format applied tx db =
      let (failed, db') = commit tx db in
      (elim failed [ none ↦ ok applied | some e ↦ err (wrap format [] e) ], rollback tx db')

  unfoldable pub apply_in_tx : ℤ → ℤ → Tx → Db → Result Bool × Db
  unfolding finish
  apply_in_tx seq ts_ms tx db =
      let (failed, tx') = tx_update seq ts_ms tx in
      elim failed [
        | some e ↦ (err (wrap "update checkpoint: %w" [] e), rollback tx' db)
        | none ↦ finish "commit apply tx: %w" true tx' db
      ]

  unfoldable pub commit_in_tx : ℤ → ℤ → Result (Result ℤ) → Tx → Db → Result Bool × Db
  unfolding apply_in_tx finish
  commit_in_tx seq ts_ms (err e) tx db =
      (err (wrap "insert applied event: %w" [] e), rollback tx db)
  commit_in_tx seq ts_ms (ok (err e)) tx db = (err (wrap "rows affected: %w" [] e), rollback tx db)
  commit_in_tx seq ts_ms (ok (ok rows)) tx db =
      if rows == pos 0
      then finish "commit duplicate tx: %w" false tx db
      else apply_in_tx seq ts_ms tx db

  unfoldable pub commit_applied_event : String → ℤ → ℤ → Db → Result Bool × Db
  unfolding commit_in_tx
  commit_applied_event event_id seq ts_ms db =
      let (opened, db') = begin db in
      elim opened [
        | err e ↦ (err (wrap "begin tx: %w" [] e), db')
        | ok tx ↦
            let (inserted, tx') =
              tx_insert (record { event_id = event_id; seq = seq; applied_at_ms = ts_ms }) tx in
            commit_in_tx seq ts_ms inserted tx' db'
      ]
