-- ===== src/Binaries.antt =====
-- cmd/core/main.go and cmd/replica/main.go: the helpers that both declare. The environment is an
-- argument, with the empty text for a variable that is not set.
pub mod CoreMain
pub mod ReplicaMain
mod Tests
use Prim.Native.Char.{code}
use novig_take_home.Base.{
  String, List, [], ◌∷◌, Option, none, some, ◌≡◌, refl, if◌then◌else◌, ◌==◌, string_eq, Bool-cases,
  inl, inr, eq_iff, ap, sym, ◌∙◌, ◌*◌, ℕ, suc, ◌<◌, ◌≤◌, ◌^◌, arith, false,
}
use novig_take_home.Base.Int.{ℤ, pos, negsuc, sub_ℕ, int64, InInt64, int64_lem}
use novig_take_home.Base.Decimal.{
  Bytes, parse_int, format_int, parse_int-format_int, format_int-cons,
}
use novig_take_home.Base.Errors.{Error}

-- The codes of a text's characters. One that is not of ASCII stands in no number, and neither does
-- a byte of its encoding.
unfoldable pub codes : String → Bytes
codes String.[] = []
codes (String.◌∷◌ c s) = code c ∷ codes s

abbrev or_fallback : Option ℤ → ℤ → ℤ
or_fallback none fallback = fallback
or_fallback (some parsed) fallback = parsed

module _ (environ : String → String) where
  unfoldable pub get_env : String → String → String
  get_env key fallback = let v = environ key in if v == "" then fallback else v

  -- `strconv.Atoi` on 64 bits.
  unfoldable pub get_env_int : String → ℤ → ℤ
  unfolding codes
  get_env_int key fallback =
      let raw = environ key in
      if raw == "" then fallback else or_fallback (parse_int (codes raw)) fallback

-- time.Duration(ms) * time.Millisecond, which wraps.
unfoldable pub in_milliseconds : ℤ → ℤ
in_milliseconds (pos n) = int64 (pos (n * 1_000_000))
in_milliseconds (negsuc n) = int64 (sub_ℕ 0 (suc n * 1_000_000))

-- How `ListenAndServe` returns: with nil, with http.ErrServerClosed, or with another error.
pub data Listened : Type 0 where
  nil server_closed : Listened
  not_served : Error → Listened

-- `main` has exited with a log line and an error, or it has served on a port until its server was
-- shut down.
pub data Main (Service : Type 0) : Type 0 where
  exited : String → Error → Main Service
  shut_down : ℤ → Service → Main Service

-- The end of both mains. `listen` is `ListenAndServe` on a port.
unfoldable pub listen_and_serve :
    {Service : Type 0} → (ℤ → Listened) → String → ℤ → Service → Main Service
listen_and_serve listen line port s = elim (listen port) [
  | nil ↦ shut_down port s
  | server_closed ↦ shut_down port s
  | not_served e ↦ exited line e
]

no_digits : (c : ℕ) (s : Bytes) → ¬ (codes "" ≡ c ∷ s)
unfolding codes
no_digits c s h = cc h

-- A number of 64 bits in a variable is read as it is.
pub get_env_int-format_int :
    (environ : String → String) (key : String) (fallback n : ℤ)
    → InInt64 n
    → codes (environ key) ≡ format_int n
    → get_env_int environ key fallback ≡ n
unfolding get_env_int
get_env_int-format_int environ key fallback n fits printed = elim (Bool-cases (environ key == "")) [
  | inl unset ↦
      let (c, s, e) = format_int-cons n in
      absurd (no_digits c s (ap codes (sym ((eq_iff (environ key) "").0 unset)) ∙ printed ∙ e))
  | inr set ↦ rw (set, get_env_int, printed, parse_int-format_int n fits) refl
]
