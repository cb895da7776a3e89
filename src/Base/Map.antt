-- ===== src/Base/Map.antt =====
-- Go's maps, as association lists. The order of a `range` over one is not given by the language:
-- a loop whose result could depend on it takes the order as an argument.
pub mod Keys
use novig_take_home.Base.Tests.{Comparable, ◌==◌, if◌then◌else◌, Bool-cases}
use mathlib.Core.Path.{◌≡◌, refl}
use mathlib.Core.Bool.{true}
use mathlib.Core.Logic.{◌≢◌, ◌⊎◌, inl, inr}
use mathlib.Core.Option.{Option, none, some}
use mathlib.Core.List.{List, [], ◌∷◌}
use native.Mathlib.Omega.{arith}

abbrev pub Map {ℓ κ} : Type ℓ → Type κ → Type (ℓ ⊔ κ)
Map K V = List (K × V)

pub equals_refl {ℓ} : {K : Type ℓ} ⦃e : Comparable K⦄ (k : K) → (k == k) ≡ true
equals_refl ⦃e⦄ k = (e.equals_iff k k).1 refl

module _ {ℓ κ} {K : Type ℓ} {V : Type κ} ⦃e : Comparable K⦄ where
  -- v, ok := m[k]
  unfoldable pub get : Map K V → K → Option V
  get [] k = none
  get ((j, v) ∷ m) k = if j == k then some v else get m k

  -- m[k] = v
  unfoldable pub insert : K → V → Map K V → Map K V
  insert k v [] = (k, v) ∷ []
  insert k v ((j, w) ∷ m) = if j == k then (j, v) ∷ m else (j, w) ∷ insert k v m

  -- delete(m, k)
  unfoldable pub delete : K → Map K V → Map K V
  delete k [] = []
  delete k ((j, w) ∷ m) = if j == k then delete k m else (j, w) ∷ delete k m

  pub get-insert :
      (k j : K) (v : V) (m : Map K V) → get (insert k v m) j ≡ (if k == j then some v else get m j)
  unfolding get insert
  get-insert k j v [] = refl
  get-insert k j v ((i, w) ∷ m) =
      ground (arith, e.equals_iff k j, e.equals_iff i k, e.equals_iff i j, get-insert k j v m)

  pub get-delete : (k j : K) (m : Map K V) → get (delete k m) j ≡ (if k == j then none else get m j)
  unfolding get delete
  get-delete k j [] = ground arith
  get-delete k j ((i, w) ∷ m) =
      ground (arith, e.equals_iff k j, e.equals_iff i k, e.equals_iff i j, get-delete k j m)

  pub get-insert_self : (k : K) (v : V) (m : Map K V) → get (insert k v m) k ≡ some v
  get-insert_self k v m = rw (get-insert, equals_refl k)

  -- What a lookup that succeeds after a write says of the map before.
  pub get-insert_inv :
      (k j : K) (v w : V) (m : Map K V)
      → get (insert k v m) j ≡ some w
      → ((k ≡ j) × (v ≡ w)) ⊎ ((k ≢ j) × (get m j ≡ some w))
  get-insert_inv k j v w m h = elim (Bool-cases (k == j)) [
    | inl hit ↦ inl (ground (arith, get-insert k j v m, e.equals_iff k j))
    | inr miss ↦ inr (ground (arith, get-insert k j v m, e.equals_iff k j))
  ]

  pub get-delete_inv :
      (k j : K) (w : V) (m : Map K V) → get (delete k m) j ≡ some w → (k ≢ j) × (get m j ≡ some w)
  get-delete_inv k j w m h = ground (arith, get-delete k j m, e.equals_iff k j)
