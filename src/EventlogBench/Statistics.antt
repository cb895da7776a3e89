-- ===== src/EventlogBench/Statistics.antt =====
-- The statistics do not panic, and the list of numbers is read back as it was written.
use novig_take_home.Base.{
  ℕ, zero, suc, ◌<◌, ◌≡◌, refl, sym, ap, ◌∙◌, subst, List, [], ◌∷◌, map, some, arith, inl, inr,
  Bool-cases, if◌then◌else◌,
}
use mathlib.Core.List.{Mem, Perm, mem-cons_self, mem-cons_of_mem}
use mathlib.Core.List.Perm
use novig_take_home.Base.Int.{ℤ, pos, negsuc, ltb_ℤ, leb_ℤ, sub64, InInt64}
use novig_take_home.Base.Lists.{length, get_elem?, All}
use novig_take_home.Base.Errors.{Result, ok}
use novig_take_home.Base.Decimal.{
  Bytes, parse_int, format_int, format_int-cons, parse_int-format_int,
}
use novig_take_home.EventlogBench.{
  DurationStats, percentile_index, quotient, sum64, index, stats_of, compute_stats, with_number,
  with_part, parse_csv_ints,
}

within :
    (n : ℕ) (idx : ℤ)
    → (k : ℕ) × ((if ltb_ℤ idx (pos 0)
          then pos 0
          else if leb_ℤ (pos (suc n)) idx
          then pos n
          else idx)
        ≡ pos k)
      × (k < suc n)
within n (negsuc i) = (0, ground arith, omega arith)
within n (pos i) = elim (Bool-cases (leb_ℤ (pos (suc n)) (pos i))) [
  | inl high ↦ (n, ground (arith, high), omega arith)
  | inr low ↦ (i, ground (arith, low), ground (arith, low))
]

percentile_index-InRange :
    (ceiling : ℤ) (n : ℕ) → (k : ℕ) × (percentile_index ceiling (suc n) ≡ pos k) × (k < suc n)
unfolding percentile_index
percentile_index-InRange ceiling n = within n (sub64 ceiling (pos 1))

present : (xs : List ℤ) (i : ℕ) → i < length xs → (x : ℤ) × (get_elem? xs i ≡ some x)
present [] i h = absurd (omega (arith, h))
present (x ∷ xs) zero h = (x, refl)
present (x ∷ xs) (suc i) h = present xs i (omega (arith, h))

some_injective : (a b : ℤ) → some a ≡ some b → a ≡ b
some_injective a b h = cc h

get_elem?-Mem : (xs : List ℤ) (i : ℕ) (x : ℤ) → get_elem? xs i ≡ some x → Mem x xs
get_elem?-Mem [] i x h = let impossible = h in cc impossible
get_elem?-Mem (y ∷ xs) zero x h = subst (λ z. Mem z (y ∷ xs)) (some_injective y x h) (mem-cons_self)
get_elem?-Mem (y ∷ xs) (suc i) x h = mem-cons_of_mem y (get_elem?-Mem xs i x h)

module _ (half_rank high_rank : ℕ → ℤ) (sort : List ℤ → List ℤ)
    (permutes : (xs : List ℤ) → Perm (sort xs) xs)
    (keeps : (xs : List ℤ) → length (sort xs) ≡ length xs) where
  picked :
      (ceiling : ℤ) (x : ℤ) (xs sorted : List ℤ)
      → Perm sorted (x ∷ xs)
      → length sorted ≡ suc (length xs)
      → (p : ℤ) × (index sorted (percentile_index ceiling (length sorted)) ≡ some p)
        × Mem p (x ∷ xs)
  unfolding index
  picked ceiling x xs sorted same size =
      let (k, at, low) = percentile_index-InRange ceiling (length xs) in
      let (p, found) = present sorted k (omega (arith, low, size)) in
      (
        p,
        ap (λ z. index sorted (percentile_index ceiling z)) size ∙ ap (index sorted) at ∙ found,
        (Perm.mem_iff same).0 (get_elem?-Mem sorted k p found),
      )

  quotient-IsSome : (a : ℤ) (n : ℕ) → (q : ℤ) × (quotient a (suc n) ≡ some q)
  unfolding quotient
  quotient-IsSome (pos a) n = (_, refl)
  quotient-IsSome (negsuc a) n = (_, refl)

  -- For a sample that is not empty, whatever the float64 arithmetic of the ranks gives, no index is
  -- out of range and nothing is divided by zero; and both percentiles are durations of the sample.
  -- The sort permutes the sample and keeps its length.
  pub compute_stats-total :
      (x : ℤ) (xs : List ℤ)
      → (stats : DurationStats) × (compute_stats half_rank high_rank sort (x ∷ xs) ≡ some stats)
        × Mem stats.p50 (x ∷ xs)
        × Mem stats.p95 (x ∷ xs)
  unfolding compute_stats stats_of
  compute_stats-total x xs =
      let sorted = sort (x ∷ xs) in
      let size : length sorted ≡ suc (length xs) = keeps (x ∷ xs) in
      let (half, half_at, half_in) =
        picked (half_rank (length sorted)) x xs sorted (permutes (x ∷ xs)) size in
      let (high, high_at, high_in) =
        picked (high_rank (length sorted)) x xs sorted (permutes (x ∷ xs)) size in
      let (avg, avg_at) = quotient-IsSome (sum64 (pos 0) sorted) (length xs) in
      (
        record { avg = avg; p50 = half; p95 = high },
        ap
              (λ z.
                stats_of z
                  (index sorted (percentile_index (half_rank (length sorted)) (length sorted)))
                  (index sorted (percentile_index (high_rank (length sorted)) (length sorted))))
              (ap (quotient (sum64 (pos 0) sorted)) size ∙ avg_at)
            ∙ ap
                (λ z.
                  stats_of (some avg) z
                    (index sorted (percentile_index (high_rank (length sorted)) (length sorted))))
                half_at
            ∙ ap (stats_of (some avg) (some half)) high_at,
        half_in,
        high_in,
      )

module _ (trim : Bytes → Bytes) (trims : (v : ℤ) → trim (format_int v) ≡ format_int v) where
  number_part :
      (v : ℤ) (rest : Result (List ℤ))
      → InInt64 v
      → with_part trim (format_int v) rest ≡ with_number trim (some v) rest
  unfolding with_part
  number_part v rest room =
      let (c, s, e) = format_int-cons v in
      ap (λ z. with_part trim z rest) e
      ∙ ap (λ z. with_number trim z rest) (ap parse_int (sym e) ∙ parse_int-format_int v room)

  -- Numbers of 64 bits that are printed are read back in their order. `strings.TrimSpace` leaves
  -- such a text as it is.
  pub parse_csv_ints-format_int :
      (vs : List ℤ) → All InInt64 vs → parse_csv_ints trim (map format_int vs) ≡ ok vs
  unfolding parse_csv_ints with_number
  parse_csv_ints-format_int [] room = refl
  parse_csv_ints-format_int (v ∷ vs) room =
      ap (λ z. with_part trim z (parse_csv_ints trim (map format_int vs))) (trims v)
      ∙ number_part v _ room.0
      ∙ ap (with_number trim (some v)) (parse_csv_ints-format_int vs room.1)
