-- ===== src/EventlogBench/Query.antt =====
-- cmd/eventlog-bench/main.go: `benchmarkQuery` and `explainQueryPlan`. The queries of database/sql
-- are a parameter, and what the clock measures is an argument.
pub mod Closed
use Prim.Native.String.{◌++◌ as ◌<>◌}
use novig_take_home.Base.{
  ◌||◌, ℕ, zero, suc, String, List, [], ◌∷◌, Option, none, some, ◌≡◌, if◌then◌else◌, ◌==◌,
  string_eq,
}
use novig_take_home.Base.Int.{ℤ, pos, pos_part, ltb_ℤ}
use novig_take_home.Base.Errors.{Error, errorf, wrap, text, Result, ok, err}
use novig_take_home.EventlogBench.{DurationStats, compute_stats}

pub record QuerySpec : Type 0 where
  pub name : String
  pub sql : String
  pub kind : String
  pub param_label : String

-- A query's rows are read from `Rows`, of which a database may have some that are not closed.
pub record Reader (Db : Type 0) : Type 1 where
  pub Rows : Type 0
  pub open_rows : Db → ℕ
  -- `QueryRow` with its `Scan`, whose value is not used.
  pub query_row : String → List ℤ → Db → Option Error × Db
  pub query : String → List ℤ → Db → Result Rows × Db
  -- What `Scan` gives for one row after another, and `Err` after them.
  pub scans : Rows → List (Result String)
  pub rows_err : Rows → Option Error
  pub close_rows : Rows → Db → Option Error × Db
  pub query_row_closes :
      (q : String) (args : List ℤ) (db : Db) → open_rows (query_row q args db).1 ≡ open_rows db
  pub query_fails :
      (q : String) (args : List ℤ) (db : Db) (e : Error)
      → (query q args db).0 ≡ err e
      → open_rows (query q args db).1 ≡ open_rows db
  -- Rows that are closed, once or again after their end, hold nothing.
  pub close_rows_closes :
      (q : String) (args : List ℤ) (db : Db) (rows : Rows)
      → (query q args db).0 ≡ ok rows
      → open_rows (close_rows rows (query q args db).1).1 ≡ open_rows db

-- `for rows.Next()` with its `Scan`, up to the first error.
unfoldable pub scan_all : List (Result String) → Result (List String)
scan_all [] = ok []
scan_all (err e ∷ _) = err e
scan_all (ok detail ∷ rest) = elim (scan_all rest) [
  | err e ↦ err e
  | ok details ↦ ok (detail ∷ details)
]

module _ {Db : Type 0} (reader : Reader Db) where
  open reader use {Rows, query_row, query, scans, rows_err, close_rows}

  unfoldable pub run_scalar : String → List ℤ → Db → Option Error × Db
  run_scalar q args db =
      let (problem, db') = query_row q args db in
      (elim problem [ none ↦ none | some e ↦ some (wrap "scan scalar: %w" [] e) ], db')

  -- The end of a loop without an error of its own.
  unfoldable pub after_loop : Option Error → Rows → Db → Option Error × Db
  after_loop (some e) rows db = (some (wrap "iterate range: %w" [] e), (close_rows rows db).1)
  after_loop none rows db =
      let (problem, db') = close_rows rows db in
      (elim problem [ some e ↦ some (wrap "close rows: %w" [] e) | none ↦ none ], db')

  -- From the first row to the close of the rows, which each path has.
  unfoldable pub finish_range : Rows → Db → Option Error × Db
  unfolding scan_all after_loop
  finish_range rows db = elim (scan_all (scans rows)) [
    | err e ↦ (some (wrap "scan range: %w" [] e), (close_rows rows db).1)
    | ok _ ↦ after_loop (rows_err rows) rows db
  ]

  unfoldable pub run_range : String → List ℤ → Db → Option Error × Db
  unfolding finish_range
  run_range q args db =
      let (answer, db') = query q args db in
      elim answer [
        | err e ↦ (some (wrap "query range: %w" [] e), db')
        | ok rows ↦ finish_range rows db'
      ]

  unfoldable pub run_once : String → String → List ℤ → Db → Option Error × Db
  unfolding run_scalar run_range
  run_once kind q args db =
      if kind == "scalar"
      then run_scalar q args db
      else if kind == "range"
      then run_range q args db
      else (some (errorf "unknown query kind: %s" (text kind ∷ [])), db)

  -- The iterations that are left, with the durations from here on.
  unfoldable pub measure : ℕ → (ℕ → ℤ) → String → String → List ℤ → Db → Result (List ℤ) × Db
  unfolding run_once
  measure zero clock kind q args db = (ok [], db)
  measure (suc left) clock kind q args db =
      let (problem, db') = run_once kind q args db in
      let (rest, after) = measure left clock kind q args db' in
      elim problem [
        | some e ↦ (err e, db')
        | none ↦ (elim rest [ err e ↦ err e | ok durations ↦ ok (clock left ∷ durations) ], after)
      ]

  module _ (half_rank high_rank : ℕ → ℤ) (sort : List ℤ → List ℤ) (largest : ℤ) where
    unfoldable pub answer_of : Result (List ℤ) → Option (Result DurationStats)
    unfolding compute_stats
    answer_of (err e) = some (err e)
    answer_of (ok durations) = elim (compute_stats half_rank high_rank sort durations) [
      | none ↦ none
      | some stats ↦ some (ok stats)
    ]

    -- `none` is a panic. The `make` at the start panics for a capacity below zero or over the
    -- largest that the runtime allows; a lack of memory is left out.
    unfoldable pub benchmark_query :
        ℤ → (ℕ → ℤ) → String → String → List ℤ → Db → Option (Result DurationStats) × Db
    unfolding measure answer_of
    benchmark_query iterations clock kind q args db =
        if ltb_ℤ iterations (pos 0) || ltb_ℤ largest iterations
        then (none, db)
        else (let (measured, db') = measure (pos_part iterations) clock kind q args db in
            (answer_of measured, db'))

  abbrev pub plan_of : Rows → Result (List String)
  plan_of rows = elim (scan_all (scans rows)) [
    | err e ↦ err e
    | ok details ↦ elim (rows_err rows) [ some e ↦ err e | none ↦ ok details ]
  ]

  -- With the deferred close, whose error is dropped.
  unfoldable pub explain_query_plan : String → List ℤ → Db → Result (List String) × Db
  unfolding scan_all
  explain_query_plan q args db =
      let (answer, db') = query ("EXPLAIN QUERY PLAN " <> q) args db in
      elim answer [ err e ↦ (err e, db') | ok rows ↦ (plan_of rows, (close_rows rows db').1) ]
