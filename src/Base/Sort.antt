-- ===== src/Base/Sort.antt =====
-- A sort: what Go's `sort.Slice` and `slices.SortFunc` leave where the order determines it.
use novig_take_home.Base.Tests.{Bool-cases}
use mathlib.Core.Bool.{Bool, true, false}
use mathlib.Core.Path.{◌≡◌}
use mathlib.Core.Logic.{inl, inr}
use mathlib.Core.List.{List, [], ◌∷◌, Perm}
use mathlib.Core.List.Perm

module _ {ℓ} {A : Type ℓ} (leb : A → A → Bool) where
  insert_by : A → List A → List A
  insert_by x [] = x ∷ []
  insert_by x (y ∷ rest) = elim (leb x y) [ true ↦ x ∷ y ∷ rest | false ↦ y ∷ insert_by x rest ]

  unfoldable pub sort_by : List A → List A
  unfolding insert_by
  sort_by [] = []
  sort_by (x ∷ rest) = insert_by x (sort_by rest)

  -- Each element is in order with the next.
  abbrev pub IsSortedBy : List A → Type 0
  IsSortedBy [] = Unit
  IsSortedBy (x ∷ []) = Unit
  IsSortedBy (x ∷ y ∷ rest) = (leb x y ≡ true) × IsSortedBy (y ∷ rest)

  insert_by-Perm : (x : A) (xs : List A) → Perm (insert_by x xs) (x ∷ xs)
  unfolding insert_by
  insert_by-Perm x [] = Perm.refl (x ∷ [])
  insert_by-Perm x (y ∷ rest) = elim (Bool-cases (leb x y)) [
    | inl before ↦ rw (before, insert_by) (Perm.refl (x ∷ y ∷ rest))
    | inr after ↦
        rw (after, insert_by)
          (Perm.trans (Perm.cons y (insert_by-Perm x rest)) (Perm.swap x y rest))
  ]

  pub sort_by-Perm : (xs : List A) → Perm (sort_by xs) xs
  unfolding sort_by
  sort_by-Perm [] = Perm.refl []
  sort_by-Perm (x ∷ rest) =
      Perm.trans (insert_by-Perm x (sort_by rest)) (Perm.cons x (sort_by-Perm rest))

  module _ (total : (x y : A) → leb x y ≡ false → leb y x ≡ true) where
    -- The head of the list after an insertion is the old head or the new element.
    under_head :
        (y x : A) (rest : List A)
        → leb y x ≡ true
        → IsSortedBy (y ∷ rest)
        → IsSortedBy (insert_by x rest)
        → IsSortedBy (y ∷ insert_by x rest)
    unfolding insert_by
    under_head y x [] h s t = (h, tt)
    under_head y x (z ∷ rest) h s t = elim (Bool-cases (leb x z)) [
      | inl before ↦ rw (before, insert_by) (h, rw (before, insert_by) at t)
      | inr after ↦ rw (after, insert_by) (s.0, rw (after, insert_by) at t)
    ]

    tail-IsSortedBy : (x : A) (rest : List A) → IsSortedBy (x ∷ rest) → IsSortedBy rest
    tail-IsSortedBy x [] s = tt
    tail-IsSortedBy x (y ∷ rest) s = s.1

    insert_by-IsSortedBy : (x : A) (xs : List A) → IsSortedBy xs → IsSortedBy (insert_by x xs)
    unfolding insert_by
    insert_by-IsSortedBy x [] s = tt
    insert_by-IsSortedBy x (y ∷ rest) s = elim (Bool-cases (leb x y)) [
      | inl before ↦ rw (before, insert_by) (before, s)
      | inr after ↦
          rw (after, insert_by)
            (under_head y x rest (total x y after) s
              (insert_by-IsSortedBy x rest (tail-IsSortedBy y rest s)))
    ]

    pub sort_by-IsSortedBy : (xs : List A) → IsSortedBy (sort_by xs)
    unfolding sort_by
    sort_by-IsSortedBy [] = tt
    sort_by-IsSortedBy (x ∷ rest) = insert_by-IsSortedBy x (sort_by rest) (sort_by-IsSortedBy rest)
