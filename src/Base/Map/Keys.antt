-- ===== src/Base/Map/Keys.antt =====
-- Maps without repeated keys.
use novig_take_home.Base.Tests.{Comparable, ◌==◌, Bool-cases}
use novig_take_home.Base.Map.{Map, get, insert, delete, get-insert, get-delete, equals_refl}
use mathlib.Core.Path.{◌≡◌, refl, ap}
use mathlib.Core.Logic.{◌≢◌, ◌⊎◌, inl, inr}
use mathlib.Core.Option.{none, some}
use mathlib.Core.List.{[], ◌∷◌}
use native.Mathlib.Omega.{arith}

module _ {ℓ κ} {K : Type ℓ} {V : Type κ} ⦃e : Comparable K⦄ where
  -- Each key stands once.
  abbrev pub NodupKeys : Map K V → Type κ
  NodupKeys [] = Unit
  NodupKeys ((k, v) ∷ m) = (get m k ≡ none) × NodupKeys m

  pub insert-NodupKeys : (k : K) (v : V) (m : Map K V) → NodupKeys m → NodupKeys (insert k v m)
  unfolding insert get
  insert-NodupKeys k v [] n = (refl, tt)
  insert-NodupKeys k v ((j, w) ∷ m) n = elim (Bool-cases (j == k)) [
    | inl hit ↦ rw (hit, insert) n
    | inr miss ↦
        rw (miss, insert)
          (
            ground (arith, get-insert k j v m, e.equals_iff j k, e.equals_iff k j),
            insert-NodupKeys k v m n.1,
          )
  ]

  pub delete-NodupKeys : (k : K) (m : Map K V) → NodupKeys m → NodupKeys (delete k m)
  unfolding delete get
  delete-NodupKeys k [] n = tt
  delete-NodupKeys k ((j, w) ∷ m) n = elim (Bool-cases (j == k)) [
    | inl hit ↦ rw (hit, delete) (delete-NodupKeys k m n.1)
    | inr miss ↦
        rw (miss, delete)
          (
            ground (arith, get-delete k j m, e.equals_iff j k, e.equals_iff k j),
            delete-NodupKeys k m n.1,
          )
  ]

  pub get-cons_self : (k : K) (v : V) (m : Map K V) → get ((k, v) ∷ m) k ≡ some v
  unfolding get
  get-cons_self k v m = rw (equals_refl k, get)

  -- What the tail of such a map finds, the map finds.
  pub get-cons_tail :
      (k j : K) (v w : V) (m : Map K V)
      → get m k ≡ none
      → get m j ≡ some w
      → (k ≢ j) × (get ((k, v) ∷ m) j ≡ some w)
  unfolding get
  get-cons_tail k j v w m absent found =
      let ne : k ≢ j = λ e. cc (ap (get m) e) in (ne, ground (arith, e.equals_iff k j))

  pub get-cons_inv :
      (k j : K) (v w : V) (m : Map K V)
      → get ((k, v) ∷ m) j ≡ some w
      → ((k ≡ j) × (v ≡ w)) ⊎ ((k ≢ j) × (get m j ≡ some w))
  unfolding get
  get-cons_inv k j v w m h = elim (Bool-cases (k == j)) [
    | inl hit ↦ inl (ground (arith, e.equals_iff k j))
    | inr miss ↦ inr (ground (arith, e.equals_iff k j))
  ]

  pub get-cons_none :
      (k j : K) (v : V) (m : Map K V) → get ((k, v) ∷ m) j ≡ none → (k ≢ j) × (get m j ≡ none)
  unfolding get
  get-cons_none k j v m h = ground (arith, e.equals_iff k j)
