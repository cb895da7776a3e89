-- ===== src/Base/Order.antt =====
-- Go's order of strings, which goes by bytes.
use Prim.Native.Nat.{ℕ, Ordering, compare as compare_ℕ}
use Prim.Native.Char.{code}
use Prim.Native.String.compare
use Prim.Native.String.{String, [], ◌∷◌, compare, then}
use mathlib.Core.Bool.{Bool, true, false}
use mathlib.Core.Path.{◌≡◌, refl, sym, ap, ◌∙◌}
use native.Mathlib.Omega.{arith}

abbrev pub str_leb : String → String → Bool
str_leb a b = elim (compare a b) [ Ordering.gt ↦ false | _ ↦ true ]

swap : Ordering → Ordering
swap Ordering.lt = Ordering.gt
swap Ordering.eq = Ordering.eq
swap Ordering.gt = Ordering.lt

swap-then : (o p : Ordering) → swap (then o p) ≡ then (swap o) (swap p)
unfolding swap
swap-then Ordering.lt p = refl
swap-then Ordering.eq p = refl
swap-then Ordering.gt p = refl

compare_ℕ-swap : (m n : ℕ) → compare_ℕ n m ≡ swap (compare_ℕ m n)
unfolding swap
compare_ℕ-swap m n = ground arith

compare-swap : (s t : String) → compare t s ≡ swap (compare s t)
unfolding swap
compare-swap [] [] = compare.nil-nil ∙ sym (ap swap compare.nil-nil)
compare-swap [] (d ∷ t) = compare.cons-nil d t ∙ sym (ap swap (compare.nil-cons d t))
compare-swap (c ∷ s) [] = compare.nil-cons c s ∙ sym (ap swap (compare.cons-nil c s))
compare-swap (c ∷ s) (d ∷ t) =
    compare.cons-cons d c t s
    ∙ ap (λ o. then o (compare t s)) (compare_ℕ-swap (code c) (code d))
    ∙ ap (then (swap (compare_ℕ (code c) (code d)))) (compare-swap s t)
    ∙ sym (swap-then (compare_ℕ (code c) (code d)) (compare s t))
    ∙ sym (ap swap (compare.cons-cons c d s t))

leb_of : Ordering → Bool
leb_of Ordering.gt = false
leb_of _ = true

swapped_leb : (o : Ordering) → leb_of o ≡ false → leb_of (swap o) ≡ true
unfolding leb_of swap
swapped_leb Ordering.lt h = cc h
swapped_leb Ordering.eq h = refl
swapped_leb Ordering.gt h = refl

pub str_leb_total : (a b : String) → str_leb a b ≡ false → str_leb b a ≡ true
unfolding leb_of
str_leb_total a b h = ap leb_of (compare-swap a b) ∙ swapped_leb (compare a b) h
