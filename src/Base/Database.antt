-- ===== src/Base/Database.antt =====
-- database/sql, as far as a database is opened, is given its schema, and is closed.
use novig_take_home.Base.Errors.{Error, Result, ok, err}
use Prim.Native.String.{String}
use mathlib.Core.Path.{◌≡◌}
use mathlib.Core.Bool.{Bool, true, false}
use mathlib.Core.Option.{Option, none, some}

-- The driver over its databases, with what the program's statements do where they do not fail.
pub record Driver {Statement Schema : Type 0} (Db : Type 0) (effect : Statement → Schema → Schema)
    : Type 0 where
  pub is_open : Db → Bool
  pub schema : Db → Schema
  -- `sql.Open`
  pub open_dsn : String → Result Db
  pub exec : Statement → Db → Option Error × Db
  pub close : Db → Option Error × Db
  pub open_dsn_opens : (dsn : String) (db : Db) → open_dsn dsn ≡ ok db → is_open db ≡ true
  pub exec_keeps : (stmt : Statement) (db : Db) → is_open (exec stmt db).1 ≡ is_open db
  pub exec_done :
      (stmt : Statement) (db : Db)
      → (exec stmt db).0 ≡ none
      → schema (exec stmt db).1 ≡ effect stmt (schema db)
  pub close_closes : (db : Db) → is_open (close db).1 ≡ false

-- An error, with the database as it is left if it was opened; or the open database.
pub data Opened (Db : Type 0) : Type 0 where
  failed : Error → Option Db → Opened Db
  opened : Db → Opened Db

module _ {Db Statement Schema : Type 0} {effect : Statement → Schema → Schema}
    (d : Driver Db effect) where
  -- After the statements of a store's `init`.
  unfoldable pub initialised : Option Error × Db → Opened Db
  initialised (none, db) = opened db
  initialised (some e, db) = failed e (some (d.close db).1)

  -- A statement has failed, at some state of the database.
  abbrev pub HasFailed : Type 0
  HasFailed = (stmt : Statement) × (at : Db) × (x : Error) × ((d.exec stmt at).0 ≡ some x)

  -- How a store must be that was asked for with a name, where its schema becomes `ready` of what
  -- was there.
  abbrev pub IsSound : (Schema → Schema) → String → Opened Db → Type 0
  IsSound ready dsn (failed e none) = (x : Error) × (d.open_dsn dsn ≡ err x)
  IsSound ready dsn (failed e (some db)) = (d.is_open db ≡ false) × HasFailed
  IsSound ready dsn (opened db) =
      (db' : Db) × (d.open_dsn dsn ≡ ok db')
      × (d.is_open db ≡ true)
      × (d.schema db ≡ ready (d.schema db'))
