-- ===== src/EventlogBench/Seed.antt =====
-- cmd/eventlog-bench/main.go: `buildDB` and `seedEvents`. database/sql is a parameter that may fail
-- at any statement.
pub mod Cleanup
use novig_take_home.Base.{
  ℕ, zero, suc, String, Bool, List, [], ◌∷◌, ◌++◌, ◌≡◌, Option, none, some, true, false,
}
use novig_take_home.Base.Int.{ℤ, pos, add64}
use novig_take_home.Base.Errors.{Error, wrap, int, text, Result, ok, err}

-- What differs between the rows: the number that the identifier "event-%d" ends in is `seq` too.
pub record Row : Type 0 where
  pub seq : ℤ
  pub event_number : ℤ
  pub ts_ms : ℤ

pub record Driver : Type 1 where
  pub Db : Type 0
  pub Tx : Type 0
  pub is_open : Db → Bool
  pub rows : Db → List Row
  -- What a commit would leave.
  pub pending : Tx → List Row
  pub exec : String → Db → Option Error × Db
  pub close : Db → Db
  pub begin : Db → Result Tx × Db
  pub prepare : Tx → Option Error × Tx
  pub insert : Row → Tx → Option Error × Tx
  pub commit : Tx → Db → Option Error × Db
  pub rollback : Tx → Db → Db
  pub exec_keeps : (ddl : String) (db : Db) → is_open (exec ddl db).1 ≡ is_open db
  pub close_closes : (db : Db) → is_open (close db) ≡ false
  pub begin_keeps : (db : Db) → is_open (begin db).1 ≡ is_open db
  pub begin_rows : (db : Db) → rows (begin db).1 ≡ rows db
  pub begin_sees : (db : Db) (tx : Tx) → (begin db).0 ≡ ok tx → pending tx ≡ rows db
  pub prepare_keeps : (tx : Tx) → pending (prepare tx).1 ≡ pending tx
  pub insert_done :
      (row : Row) (tx : Tx)
      → (insert row tx).0 ≡ none
      → pending (insert row tx).1 ≡ pending tx ++ row ∷ []
  pub commit_keeps : (tx : Tx) (db : Db) → is_open (commit tx db).1 ≡ is_open db
  pub commit_done :
      (tx : Tx) (db : Db) → (commit tx db).0 ≡ none → rows (commit tx db).1 ≡ pending tx

abbrev pub seed_row : ℤ → ℤ → Row
seed_row base_ms i = record { seq = i; event_number = i; ts_ms = add64 base_ms i }

module _ (d : Driver) where
  open d use {Db, Tx, exec, close, begin, prepare, insert, commit, rollback}

  -- The loop from a number on, with the rows that are left.
  unfoldable pub seed_rows : ℕ → ℤ → ℤ → Tx → Option Error × Tx
  seed_rows zero i base_ms tx = (none, tx)
  seed_rows (suc left) i base_ms tx =
      let (failed, tx') = insert (seed_row base_ms i) tx in
      let rest = seed_rows left (add64 i (pos 1)) base_ms tx' in
      elim failed [ some e ↦ (some (wrap "insert row %d: %w" (int i ∷ []) e), tx') | none ↦ rest ]

  abbrev pub finish : Option Error × Tx → Db → Option Error × Db
  finish (some e, tx) db = (some e, rollback tx db)
  finish (none, tx) db =
      let (failed, db') = commit tx db in
      (elim failed [ none ↦ none | some e ↦ some (wrap "commit tx: %w" [] e) ], db')

  unfoldable pub seed_in : ℕ → ℤ → Tx → Db → Option Error × Db
  unfolding seed_rows
  seed_in row_count base_ms tx db =
      let (failed, tx') = prepare tx in
      elim failed [
        | some e ↦ (some (wrap "prepare insert: %w" [] e), rollback tx' db)
        | none ↦ finish (seed_rows row_count (pos 1) base_ms tx') db
      ]

  -- `none` is a nil error.
  unfoldable pub seed_events : ℕ → ℤ → Db → Option Error × Db
  unfolding seed_in
  seed_events row_count base_ms db =
      let (started, db') = begin db in
      elim started [
        | err e ↦ (some (wrap "begin tx: %w" [] e), db')
        | ok tx ↦ seed_in row_count base_ms tx db'
      ]

  unfoldable pub apply_ddl : List String → Db → Option Error × Db
  apply_ddl [] db = (none, db)
  apply_ddl (ddl ∷ rest) db =
      let (failed, db') = exec ddl db in
      let after = apply_ddl rest db' in
      elim failed [
        | some e ↦ (some (wrap "apply ddl %q: %w" (text ddl ∷ []) e), db')
        | none ↦ after
      ]

  -- An error with the database as it is left, if it was opened; or the database.
  pub data Built : Type 0 where
    failed : Error → Option Db → Built
    built : Db → Built

  unfoldable pub seeded : Option Error × Db → Built
  seeded (some e, db) = failed (wrap "seed events: %w" [] e) (some (close db))
  seeded (none, db) = built db

  unfoldable pub after_ddl : ℕ → ℤ → Option Error × Db → Built
  unfolding seeded seed_events
  after_ddl row_count base_ms (some e, db) = failed e (some (close db))
  after_ddl row_count base_ms (none, db) = seeded (seed_events row_count base_ms db)

  unfoldable pub after_schema : ℕ → ℤ → List String → Option Error × Db → Built
  unfolding after_ddl apply_ddl
  after_schema row_count base_ms ddl (some e, db) =
      failed (wrap "create schema: %w" [] e) (some (close db))
  after_schema row_count base_ms ddl (none, db) = after_ddl row_count base_ms (apply_ddl ddl db)

  -- What `sql.Open` gives is an argument.
  unfoldable pub build_db : Result Db → ℕ → ℤ → String → List String → Built
  unfolding after_schema
  build_db (err e) row_count base_ms schema ddl = failed (wrap "open sqlite: %w" [] e) none
  build_db (ok db) row_count base_ms schema ddl =
      after_schema row_count base_ms ddl (exec schema db)
