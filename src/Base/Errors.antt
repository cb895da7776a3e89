-- ===== src/Base/Errors.antt =====
-- Go's `error` values: what `errors.New` and `fmt.Errorf` build, and the sentinels that the program
-- tests for.
use novig_take_home.Base.Int.{ℤ}
use Prim.Native.String.{String}
use mathlib.Core.Bool.{Bool, true, false}
use mathlib.Core.List.{List}
use mathlib.Core.Path.{◌≡◌, refl}
use mathlib.Core.Logic.{◌⊎◌, inl, inr}

-- An argument of a format.
pub data Arg : Type 0 where
  int : ℤ → Arg
  text : String → Arg

pub data Sentinel : Type 0 where
  seq_gap stream_idle_timeout eof canceled : Sentinel

pub data Error : Type 0 where
  sentinel : Sentinel → Error
  -- `errors.New` and `fmt.Errorf` with no `%w`, and what a library returns
  errorf : String → List Arg → Error
  -- `fmt.Errorf` with the wrapped error
  wrap : String → List Arg → Error → Error

abbrev pub same_sentinel : Sentinel → Sentinel → Bool
same_sentinel seq_gap seq_gap = true
same_sentinel stream_idle_timeout stream_idle_timeout = true
same_sentinel eof eof = true
same_sentinel canceled canceled = true
same_sentinel _ _ = false

-- `errors.Is`
unfoldable pub is : Error → Sentinel → Bool
is (sentinel s) t = same_sentinel s t
is (errorf f args) t = false
is (wrap f args e) t = is e t

pub data Result {ℓ} (A : Type ℓ) : Type ℓ where
  err : Error → Result A
  ok : A → Result A

pub Result-cases {ℓ} :
    {A : Type ℓ} (r : Result A) → ((a : A) × (r ≡ ok a)) ⊎ ((e : Error) × (r ≡ err e))
Result-cases (ok a) = inl (a, refl)
Result-cases (err e) = inr (e, refl)

pub ok_injective {ℓ} : {A : Type ℓ} (a b : A) → ok a ≡ ok b → a ≡ b
ok_injective a b h = cc
