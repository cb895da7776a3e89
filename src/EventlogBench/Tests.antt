-- ===== src/EventlogBench/Tests.antt =====
-- A sample that is sorted already, and two row counts.
use novig_take_home.EventlogBench.Query.{Reader, QuerySpec, benchmark_query}
use novig_take_home.EventlogBench.Query.Closed.{benchmark_query-Measures}
use novig_take_home.EventlogBench.Program.{Flags, main}
use novig_take_home.EventlogBench.Program.Closed.{IsClean, IsClosed, main-IsClean}
use novig_take_home.Base.{
  ◌↔◌, ◌⊎◌, List, ℕ, zero, suc, String, ◌≡◌, refl, [], ◌∷◌, map, some, none, arith, Bool, true,
  false, ◌++◌, sym,
}
use mathlib.Core.List.{Mem}
use mathlib.Core.List.Perm
use novig_take_home.Base.Int.{ℤ, ◌<ℤ◌, pos, negsuc, add64, sub64, int64, ◌+ℤ◌, ◌-ℤ◌}
use novig_take_home.Base.Errors.{ok, ok_injective}
use novig_take_home.Base.Decimal.{format_int}
use novig_take_home.EventlogBench.{DurationStats, compute_stats, parse_csv_ints, tail_from_seq}
use novig_take_home.EventlogBench.Seed.{Row, Driver}
use novig_take_home.EventlogBench.Statistics.{compute_stats-total, parse_csv_ints-format_int}

abbrev rank : ℕ → ℤ
rank n = pos n

compute_stats-total_example :
    (stats : DurationStats) × (compute_stats rank rank (λ xs. xs) (pos 3 ∷ pos 5 ∷ []) ≡ some stats)
    × Mem stats.p50 (pos 3 ∷ pos 5 ∷ [])
    × Mem stats.p95 (pos 3 ∷ pos 5 ∷ [])
compute_stats-total_example =
    compute_stats-total rank rank (λ xs. xs) (λ xs. Perm.refl xs) (λ xs. refl) (pos 3) (pos 5 ∷ [])

counts_read_back :
    parse_csv_ints (λ s. s) (map format_int (pos 10_000 ∷ negsuc 4 ∷ []))
    ≡ ok (pos 10_000 ∷ negsuc 4 ∷ [])
counts_read_back =
    parse_csv_ints-format_int (λ s. s) (λ v. refl) (pos 10_000 ∷ negsuc 4 ∷ [])
      (omega arith, (omega arith, tt))

-- A window that is larger than the log starts at its first event.
tail_of_small_log : tail_from_seq (pos 10) (pos 1_000) ≡ pos 1
unfolding tail_from_seq add64 sub64 int64 ◌+ℤ◌ ◌-ℤ◌
tail_of_small_log = refl

-- A database in memory.
abbrev Disk : Type 0
Disk = Bool × List Row

abbrev memory : Driver
memory = record {
  Db = Disk;
  Tx = List Row;
  is_open = λ db. db.0;
  rows = λ db. db.1;
  pending = λ tx. tx;
  exec = λ ddl db. (none, db);
  close = λ db. (false, db.1);
  begin = λ db. (ok db.1, db);
  prepare = λ tx. (none, tx);
  insert = λ row tx. (none, tx ++ row ∷ []);
  commit = λ tx db. (none, (db.0, tx));
  rollback = λ tx db. db;
  exec_keeps = λ ddl db. refl;
  close_closes = λ db. refl;
  begin_keeps = λ db. refl;
  begin_rows = λ db. refl;
  begin_sees = λ db tx h. sym (ok_injective _ _ h);
  prepare_keeps = λ tx. refl;
  insert_done = λ row tx h. refl;
  commit_keeps = λ tx db. refl;
  commit_done = λ tx db h. refl;
}

-- Queries of one row, each of which leaves nothing open when its rows are closed.
abbrev one_row : Reader Disk
one_row = record {
  Rows = Unit {0};
  open_rows = λ db. 0;
  query_row = λ q args db. (none, db);
  query = λ q args db. (ok tt, db);
  scans = λ rows. ok "1" ∷ [];
  rows_err = λ rows. none;
  close_rows = λ rows db. (none, db);
  query_row_closes = λ q args db. refl;
  query_fails = λ q args db e h. refl;
  close_rows_closes = λ q args db rows h. refl;
}

-- Two databases of two rows each.
abbrev flags : Flags
flags = record {
  rows = format_int (pos 2) ∷ [];
  row_iterations = pos 3;
  range_iterations = pos 2;
  tail_window = pos 1;
}

abbrev elapsed : String → QuerySpec → ℕ → ℤ
elapsed variant q i = pos 7

main-IsClean_example : IsClean (IsClosed memory) (
    main memory one_row rank rank
      (λ xs. xs)
      (pos 1_000_000)
      elapsed
      flags
      (λ name n. ok (true, []))
      (λ name n. pos 1_000)
      "schema"
      (λ s. s))
main-IsClean_example =
    main-IsClean memory one_row rank rank (λ xs. xs) (λ xs. Perm.refl xs) (λ xs. refl)
      (pos 1_000_000) elapsed flags (λ name n. ok (true, [])) (λ name n. pos 1_000) "schema"
      (λ s. s) (omega arith) (omega arith)

abbrev one_less : ℕ → ℕ
one_less zero = zero
one_less (suc n) = n

-- A database as the number of its rows that are open.
abbrev counting : Reader ℕ
counting = record {
  Rows = Unit {0};
  open_rows = λ db. db;
  query_row = λ q args db. (none, db);
  query = λ q args db. (ok tt, suc db);
  scans = λ rows. ok "1" ∷ [];
  rows_err = λ rows. none;
  close_rows = λ rows db. (none, one_less db);
  query_row_closes = λ q args db. refl;
  query_fails = λ q args db e h. cc h;
  close_rows_closes = λ q args db rows h. refl;
}

benchmark_query-Measures_example :
    let r =
      benchmark_query counting rank rank
        (λ xs. xs)
        (pos 1_000)
        (pos 3)
        (λ i. pos 7)
        "range"
        "SELECT 1"
        []
        4 in
    (r.1 ≡ 4) × ((r.0 ≡ none) ↔ ((pos 3 <ℤ pos 0) ⊎ (pos 1_000 <ℤ pos 3)))
benchmark_query-Measures_example =
    benchmark_query-Measures counting rank rank (λ xs. xs) (pos 1_000) (λ xs. Perm.refl xs)
      (λ xs. refl) (pos 3) (λ i. pos 7) "range" "SELECT 1" [] 4
