-- ===== src/EventlogBench/Program.antt =====
-- cmd/eventlog-bench/main.go: `main`. What `sql.Open` gives for a variant and a row count, and what
-- the clock reads, are arguments; the report is left out. `none` is a run to the end.
-- `largest` is the largest capacity that `make` has for durations.
pub mod Closed
use novig_take_home.Base.{
  ℕ, String, Bool, true, false, ◌||◌, List, [], ◌∷◌, ◌++◌, Option, none, some, if◌then◌else◌, ◌==◌,
  string_eq,
}
use novig_take_home.Base.Int.{ℤ, pos, pos_part, ltb_ℤ}
use novig_take_home.Base.Decimal.{Bytes}
use novig_take_home.Base.Errors.{Error, errorf, wrap, int, text, Result, ok, err}
use novig_take_home.EventlogBench.{DurationStats, parse_csv_ints, tail_from_seq}
use novig_take_home.EventlogBench.Seed.{Driver, Built, failed, built, build_db}
use novig_take_home.EventlogBench.Query.{Reader, QuerySpec, benchmark_query, explain_query_plan}

pub record Variant : Type 0 where
  pub name : String
  pub ddl : List String

abbrev pub variants : List Variant
variants =
    record { name = "baseline"; ddl = [] }
    ∷ record {
      name = "with_seq_desc_index";
      ddl = "CREATE INDEX IF NOT EXISTS idx_event_log_seq_desc ON event_log(seq DESC);" ∷ [];
    }
    ∷ []

abbrev replay : String
replay =
    "SELECT seq, event_id, ts_ms, event_type, market_id, payload_json FROM event_log WHERE seq >= ? ORDER BY seq ASC"

abbrev scalar_spec : String → String → QuerySpec
scalar_spec name sql = record { name = name; sql = sql; kind = "scalar"; param_label = "n/a" }

abbrev range_spec : String → String → QuerySpec
range_spec name param_label = record {
  name = name;
  sql = replay;
  kind = "range";
  param_label = param_label;
}

abbrev pub queries : List QuerySpec
queries =
    scalar_spec "max_seq" "SELECT MAX(seq) FROM event_log"
    ∷ scalar_spec "latest_desc_limit_1" "SELECT seq FROM event_log ORDER BY seq DESC LIMIT 1"
    ∷ range_spec "asc_replay_from_head" "from_seq=1"
    ∷ range_spec "asc_replay_from_tail" "from_seq=tail"
    ∷ []

-- With the row counts as `strings.Split` parts them.
pub record Flags : Type 0 where
  pub rows : List Bytes
  pub row_iterations : ℤ
  pub range_iterations : ℤ
  pub tail_window : ℤ

abbrev pub is_range : QuerySpec → Bool
is_range q = q.kind == "range"

abbrev pub iterations_of : Flags → QuerySpec → ℤ
iterations_of flags q = if is_range q then flags.range_iterations else flags.row_iterations

abbrev pub args_of : ℤ → QuerySpec → List ℤ
args_of tail q =
    if is_range q then (if q.name == "asc_replay_from_tail" then tail ∷ [] else pos 1 ∷ []) else []

-- How the program stops before its end: `fail` exits with an error, or it panics.
pub data Stop : Type 0 where
  fails : Error → Stop
  panics : Stop

-- A loop whose body may fail, with what each round leaves behind.
unfoldable pub each : {A B : Type 0} → (A → Option Stop × List B) → List A → Option Stop × List B
each body [] = (none, [])
each body (a ∷ rest) =
    let (problem, left) = body a in
    let (later, more) = each body rest in
    elim problem [ some e ↦ (some e, left) | none ↦ (later, left ++ more) ]

module _ (d : Driver) (reader : Reader d.Db) (half_rank high_rank : ℕ → ℤ) (sort : List ℤ → List ℤ)
    (largest : ℤ) (clock : String → QuerySpec → ℕ → ℤ) (flags : Flags) where
  unfoldable pub benchmark_queries : String → ℤ → List QuerySpec → d.Db → Option Stop × d.Db
  unfolding benchmark_query
  benchmark_queries variant tail [] db = (none, db)
  benchmark_queries variant tail (q ∷ rest) db =
      let (answer, db') =
        benchmark_query reader half_rank high_rank sort largest (iterations_of flags q)
          (clock variant q) q.kind q.sql (args_of tail q) db in
      let after = benchmark_queries variant tail rest db' in
      elim answer [
        | none ↦ (some panics, db')
        | some (err e) ↦ (
          some (fails (wrap "benchmark query (%s/%s): %v" (text variant ∷ text q.name ∷ []) e)),
          db',
        )
        | some (ok stats) ↦ after
      ]

  unfoldable pub explain_queries : String → ℤ → List QuerySpec → d.Db → Option Stop × d.Db
  unfolding explain_query_plan
  explain_queries variant tail [] db = (none, db)
  explain_queries variant tail (q ∷ rest) db =
      let (answer, db') = explain_query_plan reader q.sql (args_of tail q) db in
      let after = explain_queries variant tail rest db' in
      elim answer [
        | err e ↦ (
          some (fails (wrap "explain query plan (%s/%s): %v" (text variant ∷ text q.name ∷ []) e)),
          db',
        )
        | ok details ↦ after
      ]

  -- The cleanup comes before a failure is reported, and at the end else; not on a panic.
  unfoldable pub run_queries : String → ℤ → d.Db → Option Stop × List d.Db
  unfolding benchmark_queries explain_queries
  run_queries variant tail db =
      let (problem, db') = benchmark_queries variant tail queries db in
      let (later, after) = explain_queries variant tail queries db' in
      elim problem [
        | some panics ↦ (some panics, db' ∷ [])
        | some (fails e) ↦ (some (fails e), d.close db' ∷ [])
        | none ↦ (later, d.close after ∷ [])
      ]

  unfoldable pub on_built : ℤ → Variant → Built d → Option Stop × List d.Db
  unfolding run_queries tail_from_seq
  on_built row_count v (failed e none) =
      (some (fails (wrap "build db (%s, rows=%d): %v" (text v.name ∷ int row_count ∷ []) e)), [])
  on_built row_count v (failed e (some db)) = (
    some (fails (wrap "build db (%s, rows=%d): %v" (text v.name ∷ int row_count ∷ []) e)),
    db ∷ [],
  )
  on_built row_count v (built db) =
      run_queries v.name (tail_from_seq row_count flags.tail_window) db

  module _ (open_db : String → ℤ → Result d.Db) (base_ms : String → ℤ → ℤ) (schema : String) where
    unfoldable pub run_variant : ℤ → Variant → Option Stop × List d.Db
    unfolding on_built build_db
    run_variant row_count v = on_built row_count v (
        build_db d (open_db v.name row_count) (pos_part row_count) (base_ms v.name row_count) schema
          v.ddl)

    unfoldable pub run_volume : ℤ → Option Stop × List d.Db
    unfolding run_variant each
    run_volume row_count =
        if ltb_ℤ row_count (pos 1)
        then (some (fails (errorf "row count must be >= 1 (got %d)" (int row_count ∷ []))), [])
        else each (run_variant row_count) variants

    unfoldable pub run_volumes : List ℤ → Option Stop × List d.Db
    unfolding run_volume
    run_volumes [] = (some (fails (errorf "at least one row count must be provided" [])), [])
    run_volumes (volume ∷ volumes) = each run_volume (volume ∷ volumes)

    -- The exit, and the databases as they are left.
    unfoldable pub main : (Bytes → Bytes) → Option Stop × List d.Db
    unfolding run_volumes parse_csv_ints
    main trim =
        if ltb_ℤ flags.row_iterations (pos 1)
          || (ltb_ℤ flags.range_iterations (pos 1) || ltb_ℤ flags.tail_window (pos 1))
        then (
          some (fails (errorf "row-iterations, range-iterations, and tail-window must be >= 1" [])),
          [],
        )
        else elim (parse_csv_ints trim flags.rows) [
          | err e ↦ (some (fails (wrap "parse rows: %v" [] e)), [])
          | ok volumes ↦ run_volumes volumes
        ]
