-- ===== src/EventlogBench/Program/Closed.antt =====
-- The databases as the program leaves them.
use novig_take_home.Base.{
  ℕ, String, ◌≡◌, List, [], ◌∷◌, Option, none, some, ◌≢◌, subst, ◌==◌, arith, string_eq, false,
  ◌||◌, Bool-cases, Option-cases, inl, inr,
}
use mathlib.Core.List.{Perm}
use novig_take_home.Base.Int.{ℤ, pos, ltb_ℤ, ◌≤ℤ◌}
use novig_take_home.Base.Lists.{length, All, All-append}
use novig_take_home.Base.Decimal.{Bytes}
use novig_take_home.Base.Errors.{Error, Result, ok, err, Result-cases}
use novig_take_home.EventlogBench.{parse_csv_ints}
use novig_take_home.EventlogBench.Seed.{
  Driver, Built, failed, built, seeded, after_ddl, after_schema, apply_ddl, seed_events, build_db,
}
use novig_take_home.EventlogBench.Query.{Reader, QuerySpec, benchmark_query, explain_query_plan}
use novig_take_home.EventlogBench.Query.Closed.{benchmark_query-Measures}
use novig_take_home.EventlogBench.Program.{
  Variant, variants, Flags, Stop, fails, panics, iterations_of, args_of, each, explain_queries,
  benchmark_queries, run_queries, on_built, run_variant, run_volume, run_volumes, main, queries,
}

-- A part of the program that has not panicked and left databases that are all so.
abbrev pub IsClean : {B : Type 0} → (B → Type 0) → Option Stop × List B → Type 0
IsClean P r = (r.0 ≢ some panics) × All P r.1

each-IsClean :
    {A B : Type 0} (P : B → Type 0) (body : A → Option Stop × List B)
    → ((a : A) → IsClean P (body a))
    → (xs : List A) → IsClean P (each body xs)
unfolding each
each-IsClean P body h [] = ((λ e. cc e), tt)
each-IsClean P body h (a ∷ rest) = elim (Option-cases (body a).0) [
  | inl e ↦
      let (quiet, closed) = each-IsClean P body h rest in
      rw (e, each) (quiet, All-append P (body a).1 (each body rest).1 (h a).1 closed)
  | inr (x, e) ↦ rw (e, each) (subst (λ z. z ≢ some panics) e (h a).0, (h a).1)
]

fails_lem : {B : Type 0} (P : B → Type 0) (e : Error) → IsClean P (some (fails e), [])
fails_lem P e = ((λ h. cc h), tt)

module _ (d : Driver) where
  abbrev pub IsClosed : d.Db → Type 0
  IsClosed db = d.is_open db ≡ false

  -- A database that could not be built.
  abbrev IsDropped : Built d → Type 0
  IsDropped (failed e none) = Unit
  IsDropped (failed e (some db)) = IsClosed db
  IsDropped (built db) = Unit

  seeded-IsDropped : (r : Option Error × d.Db) → IsDropped (seeded d r)
  unfolding seeded
  seeded-IsDropped (some e, db) = d.close_closes db
  seeded-IsDropped (none, db) = tt

  after_ddl-IsDropped :
      (row_count : ℕ) (base_ms : ℤ) (r : Option Error × d.Db)
      → IsDropped (after_ddl d row_count base_ms r)
  unfolding after_ddl
  after_ddl-IsDropped row_count base_ms (some e, db) = d.close_closes db
  after_ddl-IsDropped row_count base_ms (none, db) =
      seeded-IsDropped (seed_events d row_count base_ms db)

  after_schema-IsDropped :
      (row_count : ℕ) (base_ms : ℤ) (ddl : List String) (r : Option Error × d.Db)
      → IsDropped (after_schema d row_count base_ms ddl r)
  unfolding after_schema
  after_schema-IsDropped row_count base_ms ddl (some e, db) = d.close_closes db
  after_schema-IsDropped row_count base_ms ddl (none, db) =
      after_ddl-IsDropped row_count base_ms (apply_ddl d ddl db)

  build_db-IsDropped :
      (opened : Result d.Db) (row_count : ℕ) (base_ms : ℤ) (schema : String) (ddl : List String)
      → IsDropped (build_db d opened row_count base_ms schema ddl)
  unfolding build_db
  build_db-IsDropped (err e) row_count base_ms schema ddl = tt
  build_db-IsDropped (ok db) row_count base_ms schema ddl =
      after_schema-IsDropped row_count base_ms ddl (d.exec schema db)

  -- An iteration count that `make` takes as a capacity.
  abbrev Fits : ℤ → ℤ → Type 0
  Fits largest iterations = (pos 1 ≤ℤ iterations) × (iterations ≤ℤ largest)

  module _ (reader : Reader d.Db) (half_rank high_rank : ℕ → ℤ) (sort : List ℤ → List ℤ)
      (permutes : (xs : List ℤ) → Perm (sort xs) xs)
      (keeps : (xs : List ℤ) → length (sort xs) ≡ length xs) (largest : ℤ)
      (clock : String → QuerySpec → ℕ → ℤ) (flags : Flags) where
    benchmark_query-returns :
        (iterations : ℤ) (clock' : ℕ → ℤ) (kind q : String) (args : List ℤ) (db : d.Db)
        → Fits largest iterations
        → (benchmark_query reader half_rank high_rank sort largest iterations clock' kind q args
            db).0
          ≢ none
    benchmark_query-returns iterations clock' kind q args db fits = λ h.
        let outside =
          ((benchmark_query-Measures reader half_rank high_rank sort largest permutes keeps
            iterations clock' kind q args db).1
          ).0
            h in
        omega (arith, outside, fits)

    module _ (row_fits : Fits largest flags.row_iterations)
        (range_fits : Fits largest flags.range_iterations) where
      iterations_of-Fits : (q : QuerySpec) → Fits largest (iterations_of flags q)
      iterations_of-Fits q = elim (Bool-cases (q.kind == "range")) [
        | inl range ↦ rw range range_fits
        | inr row ↦ rw row row_fits
      ]

      benchmark_queries-returns :
          (variant : String) (tail : ℤ) (specs : List QuerySpec) (db : d.Db)
          → (benchmark_queries d reader half_rank high_rank sort largest clock flags variant tail
              specs db).0
            ≢ some panics
      unfolding benchmark_queries
      benchmark_queries-returns variant tail [] db = λ h. cc h
      benchmark_queries-returns variant tail (q ∷ rest) db =
          let run =
            benchmark_query reader half_rank high_rank sort largest (iterations_of flags q)
              (clock variant q) q.kind q.sql (args_of tail q) db in
          elim (Option-cases run.0) [
            | inl e ↦ absurd (
                benchmark_query-returns (iterations_of flags q) (clock variant q) q.kind q.sql
                  (args_of tail q) db (iterations_of-Fits q) e)
            | inr (err x, e) ↦ rw (e, benchmark_queries) (λ h. cc h)
            | inr (ok stats, e) ↦
                rw (e, benchmark_queries) (benchmark_queries-returns variant tail rest run.1)
          ]

      explain_queries-returns :
          (variant : String) (tail : ℤ) (specs : List QuerySpec) (db : d.Db)
          → (explain_queries d reader half_rank high_rank sort largest clock flags variant tail
              specs db).0
            ≢ some panics
      unfolding explain_queries
      explain_queries-returns variant tail [] db = λ h. cc h
      explain_queries-returns variant tail (q ∷ rest) db =
          let run = explain_query_plan reader q.sql (args_of tail q) db in
          elim (Result-cases run.0) [
            | inl (details, e) ↦
                rw (e, explain_queries) (explain_queries-returns variant tail rest run.1)
            | inr (x, e) ↦ rw (e, explain_queries) (λ h. cc h)
          ]

      run_queries-IsClean :
          (variant : String) (tail : ℤ) (db : d.Db)
          → IsClean IsClosed
              (run_queries d reader half_rank high_rank sort largest clock flags variant tail db)
      unfolding run_queries
      run_queries-IsClean variant tail db =
          let r =
            benchmark_queries d reader half_rank high_rank sort largest clock flags variant tail
              queries db in
          elim (Option-cases r.0) [
            | inl e ↦
                rw (e, run_queries)
                  (explain_queries-returns variant tail queries r.1, (d.close_closes _, tt))
            | inr (fails x, e) ↦ rw (e, run_queries) ((λ h. cc h), (d.close_closes _, tt))
            | inr (panics, e) ↦ absurd (benchmark_queries-returns variant tail queries db e)
          ]

      on_built-IsClean :
          (row_count : ℤ) (v : Variant) (b : Built d)
          → IsDropped b
          → IsClean IsClosed
              (on_built d reader half_rank high_rank sort largest clock flags row_count v b)
      unfolding on_built
      on_built-IsClean row_count v (failed e none) h = fails_lem IsClosed _
      on_built-IsClean row_count v (failed e (some db)) h = ((λ k. cc k), (h, tt))
      on_built-IsClean row_count v (built db) h = run_queries-IsClean v.name _ db

      module _ (open_db : String → ℤ → Result d.Db) (base_ms : String → ℤ → ℤ)
          (schema : String) where
        run_variant-IsClean :
            (row_count : ℤ) (v : Variant)
            → IsClean IsClosed (
                run_variant d reader half_rank high_rank sort largest clock flags open_db base_ms
                  schema row_count v)
        unfolding run_variant
        run_variant-IsClean row_count v = on_built-IsClean row_count v _ (
            build_db-IsDropped (open_db v.name row_count) _ (base_ms v.name row_count) schema v.ddl)

        run_volume-IsClean :
            (row_count : ℤ)
            → IsClean IsClosed (
                run_volume d reader half_rank high_rank sort largest clock flags open_db base_ms
                  schema row_count)
        unfolding run_volume
        run_volume-IsClean row_count = elim (Bool-cases (ltb_ℤ row_count (pos 1))) [
          | inl small ↦ rw (small, run_volume) (fails_lem IsClosed _)
          | inr large ↦
              rw (large, run_volume)
                (each-IsClean IsClosed
                  (run_variant d reader half_rank high_rank sort largest clock flags open_db base_ms
                    schema row_count)
                  (run_variant-IsClean row_count) variants)
        ]

        run_volumes-IsClean :
            (volumes : List ℤ)
            → IsClean IsClosed (
                run_volumes d reader half_rank high_rank sort largest clock flags open_db base_ms
                  schema volumes)
        unfolding run_volumes
        run_volumes-IsClean [] = fails_lem IsClosed _
        run_volumes-IsClean (volume ∷ volumes) =
            each-IsClean IsClosed
              (run_volume d reader half_rank high_rank sort largest clock flags open_db base_ms
                schema)
              run_volume-IsClean (volume ∷ volumes)

    -- With iteration counts that are no larger than the largest capacity that `make` has, and
    -- whatever the other flags are, and whichever statement, query or row fails: the program does
    -- not panic, and each database that was opened is closed when it ends or exits.
    pub main-IsClean :
        (open_db : String → ℤ → Result d.Db) (base_ms : String → ℤ → ℤ) (schema : String)
        (trim : Bytes → Bytes)
        → flags.row_iterations ≤ℤ largest
        → flags.range_iterations ≤ℤ largest
        → IsClean IsClosed
            (main d reader half_rank high_rank sort largest clock flags open_db base_ms schema trim)
    unfolding main
    main-IsClean open_db base_ms schema trim row_fits range_fits =
        elim (Bool-cases (
          ltb_ℤ flags.row_iterations (pos 1)
          || (ltb_ℤ flags.range_iterations (pos 1) || ltb_ℤ flags.tail_window (pos 1)))) [
            | inl wrong ↦ rw (wrong, main) (fails_lem IsClosed _)
            | inr right ↦ elim (Result-cases (parse_csv_ints trim flags.rows)) [
              | inl (volumes, e) ↦
                  rw (right, e, main)
                    (run_volumes-IsClean (ground arith, row_fits) (ground arith, range_fits) open_db
                      base_ms schema volumes)
              | inr (x, e) ↦ rw (right, e, main) (fails_lem IsClosed _)
            ]
          ]
