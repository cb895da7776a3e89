-- ===== src/EventlogBench.antt =====
-- cmd/eventlog-bench/main.go: the statistics of a sample of durations, and the list of row counts.
-- The product and the ceiling on float64, `sort.Slice` and `strings.TrimSpace` are parameters. What
-- measures SQLite and prints is left out.
pub mod Statistics
pub mod Seed
pub mod Query
pub mod Program
mod Tests
use novig_take_home.Base.{
  ℕ, zero, suc, ◌/◌, ◌<◌, Bool, true, false, List, [], ◌∷◌, Option, none, some, if◌then◌else◌, ◌==◌,
}
use novig_take_home.Base.Int.{ℤ, pos, negsuc, sub_ℕ, ltb_ℤ, leb_ℤ, add64, sub64}
use novig_take_home.Base.Lists.{length, get_elem?}
use novig_take_home.Base.Errors.{Error, errorf, Result, ok, err}
use novig_take_home.Base.Decimal.{Bytes, parse_int}

-- In nanoseconds.
pub record DurationStats : Type 0 where
  pub avg : ℤ
  pub p50 : ℤ
  pub p95 : ℤ

-- `ceiling` is the ceiling of the percentile times the length.
unfoldable pub percentile_index : ℤ → ℕ → ℤ
percentile_index ceiling zero = pos 0
percentile_index ceiling (suc n) =
    let idx = sub64 ceiling (pos 1) in
    if ltb_ℤ idx (pos 0) then pos 0 else if leb_ℤ (pos (suc n)) idx then pos n else idx

-- Go's division by a length, which truncates towards zero; `none` is a panic.
unfoldable pub quotient : ℤ → ℕ → Option ℤ
quotient a zero = none
quotient (pos a) (suc n) = some (pos (a / suc n))
quotient (negsuc a) (suc n) = some (sub_ℕ 0 (suc a / suc n))

unfoldable pub sum64 : ℤ → List ℤ → ℤ
sum64 sum [] = sum
sum64 sum (x ∷ xs) = sum64 (add64 sum x) xs

-- An element of a slice; `none` is a panic.
unfoldable pub index : List ℤ → ℤ → Option ℤ
index xs (pos i) = get_elem? xs i
index xs (negsuc i) = none

unfoldable pub stats_of : Option ℤ → Option ℤ → Option ℤ → Option DurationStats
stats_of (some avg) (some p50) (some p95) = some (record { avg = avg; p50 = p50; p95 = p95 })
stats_of _ _ _ = none

-- `half_rank` and `high_rank` are the ceilings for 0.50 and 0.95.
module _ (half_rank high_rank : ℕ → ℤ) (sort : List ℤ → List ℤ) where
  unfoldable pub compute_stats : List ℤ → Option DurationStats
  unfolding percentile_index quotient sum64 index stats_of
  compute_stats [] = some (record { avg = pos 0; p50 = pos 0; p95 = pos 0 })
  compute_stats (x ∷ xs) =
      let sorted = sort (x ∷ xs) in
      let n = length sorted in
      stats_of (quotient (sum64 (pos 0) sorted) n) (index sorted (percentile_index (half_rank n) n))
        (index sorted (percentile_index (high_rank n) n))

module _ (trim : Bytes → Bytes) where
  -- A number that is parsed before the numbers of the other parts.
  unfoldable pub with_number : Option ℤ → Result (List ℤ) → Result (List ℤ)
  with_number none rest = err (errorf "%q is not an integer" [])
  with_number (some v) (err e) = err e
  with_number (some v) (ok out) = ok (v ∷ out)

  unfoldable pub with_part : Bytes → Result (List ℤ) → Result (List ℤ)
  unfolding with_number
  with_part [] rest = rest
  with_part (c ∷ part) rest = with_number (parse_int (c ∷ part)) rest

  -- The loop over what `strings.Split` gives; the error is that of the first part that is wrong.
  unfoldable pub parse_csv_ints : List Bytes → Result (List ℤ)
  unfolding with_part
  parse_csv_ints [] = ok []
  parse_csv_ints (part ∷ parts) = with_part (trim part) (parse_csv_ints parts)

-- The built-in name is shadowed in the program.
unfoldable pub max : ℤ → ℤ → ℤ
max a b = if ltb_ℤ b a then a else b

-- Where the replay of the tail starts.
unfoldable pub tail_from_seq : ℤ → ℤ → ℤ
unfolding max
tail_from_seq row_count tail_window = max (pos 1) (add64 (sub64 row_count tail_window) (pos 1))
