-- ===== src/EventlogBench/Query/Closed.antt =====
-- What the queries leave open, and when they panic.
use Prim.Native.String.{◌++◌ as ◌<>◌}
use novig_take_home.Base.{
  ℕ, zero, suc, String, List, [], ◌∷◌, none, some, ◌↔◌, ◌⊎◌, ◌||◌, ap, arith, ◌≡◌, refl, ◌∙◌, ◌==◌,
  string_eq, Bool-cases, Option-cases, inl, inr,
}
use mathlib.Core.List.{Perm}
use novig_take_home.Base.Int.{ℤ, pos, pos_part, ltb_ℤ, ◌<ℤ◌}
use novig_take_home.Base.Lists.{length}
use novig_take_home.Base.Errors.{Result, ok, err, Result-cases}
use novig_take_home.EventlogBench.{DurationStats, compute_stats}
use novig_take_home.EventlogBench.Statistics.{compute_stats-total}
use novig_take_home.EventlogBench.Query.{
  Reader, run_scalar, scan_all, after_loop, finish_range, run_range, run_once, measure, answer_of,
  benchmark_query, explain_query_plan,
}

module _ {Db : Type 0} (reader : Reader Db) where
  open reader use {open_rows}

  -- The rows are closed on each path.
  finish_range-closes :
      (rows : reader.Rows) (db : Db)
      → (finish_range reader rows db).1 ≡ (reader.close_rows rows db).1
  unfolding finish_range after_loop
  finish_range-closes rows db = elim (Result-cases (scan_all (reader.scans rows))) [
    | inl (details, e) ↦ elim (Option-cases (reader.rows_err rows)) [
      | inl quiet ↦ rw (e, finish_range, quiet, after_loop) refl
      | inr (x, bad) ↦ rw (e, finish_range, bad, after_loop) refl
    ]
    | inr (x, e) ↦ rw (e, finish_range) refl
  ]

  run_range-open_rows :
      (q : String) (args : List ℤ) (db : Db)
      → open_rows (run_range reader q args db).1 ≡ open_rows db
  unfolding run_range
  run_range-open_rows q args db = elim (Result-cases (reader.query q args db).0) [
    | inl (rows, e) ↦
        rw (e, run_range)
          (ap open_rows (finish_range-closes rows (reader.query q args db).1)
            ∙ reader.close_rows_closes q args db rows e)
    | inr (x, e) ↦ rw (e, run_range) (reader.query_fails q args db x e)
  ]

  run_once-open_rows :
      (kind q : String) (args : List ℤ) (db : Db)
      → open_rows (run_once reader kind q args db).1 ≡ open_rows db
  unfolding run_once run_scalar
  run_once-open_rows kind q args db = elim (Bool-cases (kind == "scalar")) [
    | inl scalar ↦ rw (scalar, run_once) (reader.query_row_closes q args db)
    | inr other ↦ elim (Bool-cases (kind == "range")) [
      | inl range ↦ rw (other, range, run_once) (run_range-open_rows q args db)
      | inr unknown ↦ rw (other, unknown, run_once) refl
    ]
  ]

  measure-open_rows :
      (iterations : ℕ) (clock : ℕ → ℤ) (kind q : String) (args : List ℤ) (db : Db)
      → open_rows (measure reader iterations clock kind q args db).1 ≡ open_rows db
  unfolding measure
  measure-open_rows zero clock kind q args db = refl
  measure-open_rows (suc left) clock kind q args db =
      elim (Option-cases (run_once reader kind q args db).0) [
        | inl e ↦
            rw (e, measure)
              (measure-open_rows left clock kind q args (run_once reader kind q args db).1
                ∙ run_once-open_rows kind q args db)
        | inr (x, e) ↦ rw (e, measure) (run_once-open_rows kind q args db)
      ]

  -- An explanation leaves no rows open either.
  pub explain_query_plan-open_rows :
      (q : String) (args : List ℤ) (db : Db)
      → open_rows (explain_query_plan reader q args db).1 ≡ open_rows db
  unfolding explain_query_plan
  explain_query_plan-open_rows q args db =
      let text = "EXPLAIN QUERY PLAN " <> q in
      elim (Result-cases (reader.query text args db).0) [
        | inl (rows, e) ↦ rw (e, explain_query_plan) (reader.close_rows_closes text args db rows e)
        | inr (x, e) ↦ rw (e, explain_query_plan) (reader.query_fails text args db x e)
      ]

  module _ (half_rank high_rank : ℕ → ℤ) (sort : List ℤ → List ℤ) (largest : ℤ)
      (permutes : (xs : List ℤ) → Perm (sort xs) xs)
      (keeps : (xs : List ℤ) → length (sort xs) ≡ length xs) where
    answer_of-some :
        (measured : Result (List ℤ))
        → (answer : Result DurationStats) × (answer_of reader half_rank high_rank sort largest
              measured
            ≡ some answer)
    unfolding answer_of compute_stats
    answer_of-some (err e) = (err e, refl)
    answer_of-some (ok []) = (_, refl)
    answer_of-some (ok (x ∷ xs)) =
        let (stats, e, _, _) = compute_stats-total half_rank high_rank sort permutes keeps x xs in
        (ok stats, rw (e, answer_of) refl)

    -- Whatever the kind, and whichever query, statement or row fails: the rows that were open before
    -- are the ones that are open after it; and it panics exactly when the number of iterations is
    -- below zero or over the largest capacity, so that else it returns an error or statistics.
    pub benchmark_query-Measures :
        (iterations : ℤ) (clock : ℕ → ℤ) (kind q : String) (args : List ℤ) (db : Db)
        → let r =
            benchmark_query reader half_rank high_rank sort largest iterations clock kind q args
              db in
          (open_rows r.1 ≡ open_rows db)
          × ((r.0 ≡ none) ↔ ((iterations <ℤ pos 0) ⊎ (largest <ℤ iterations)))
    unfolding benchmark_query
    benchmark_query-Measures iterations clock kind q args db =
        elim (Bool-cases (ltb_ℤ iterations (pos 0) || ltb_ℤ largest iterations)) [
          | inl outside ↦ rw (outside, benchmark_query) (refl, ((λ e. ground arith), (λ h. refl)))
          | inr inside ↦
              let run = measure reader (pos_part iterations) clock kind q args db in
              let (answer, e) = answer_of-some run.0 in
              rw (inside, benchmark_query)
                (
                  measure-open_rows (pos_part iterations) clock kind q args db,
                  ((λ h. let x = (rw e at h) in cc x), (λ h. ground arith)),
                )
        ]
