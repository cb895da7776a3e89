-- ===== src/Base/Decimal.antt =====
-- Go's `strconv.FormatInt` and `strconv.ParseInt` in base 10 on 64 bits, over the bytes of a text.
-- Both kinds of error of the latter, syntax and range, are `none`.
mod Tests
use novig_take_home.Base.Tests.{Bool-cases, ltb, leb, nat_beq, if◌then◌else◌}
use novig_take_home.Base.Int.{ℤ, pos, negsuc, sub_ℕ, InInt64}
use Prim.Native.Nat.{ℕ, zero, suc, ◌+◌, ◌-◌, ◌*◌, ◌/◌, ◌%◌, ◌^◌, ◌≤◌, ◌<◌}
use mathlib.Core.Path.{◌≡◌, refl, ap, ◌∙◌}
use mathlib.Core.Bool.{true, false, ◌||◌}
use mathlib.Core.Logic.{inl, inr}
use mathlib.Core.Option.{Option, none, some}
use mathlib.Core.List.{List, [], ◌∷◌}
use native.Mathlib.Omega.{arith}

abbrev pub Bytes : Type 0
Bytes = List ℕ

-- The digits of a number before `out`; a fuel of at least the number is enough.
digits : ℕ → ℕ → Bytes → Bytes
digits zero n out = out
digits (suc fuel) n out = elim (nat_beq n 0) [
  | true ↦ out
  | false ↦ digits fuel (n / 10) ((b'0' + n % 10) ∷ out)
]

unfoldable pub format_nat : ℕ → Bytes
unfolding digits
format_nat n = if nat_beq n 0 then b'0' ∷ [] else digits n n []

unfoldable pub format_int : ℤ → Bytes
unfolding format_nat
format_int (pos n) = format_nat n
format_int (negsuc n) = b'-' ∷ format_nat (suc n)

scan : Bytes → ℕ → Option ℕ
scan [] n = some n
scan (c ∷ s) n =
    let rest = scan s (n * 10 + (c - b'0')) in if ltb c b'0' || ltb b'9' c then none else rest

unsigned : Bytes → Option ℕ
unfolding scan
unsigned [] = none
unsigned (c ∷ s) = scan (c ∷ s) 0

nonnegative : Option ℕ → Option ℤ
nonnegative none = none
nonnegative (some n) = if ltb n (2 ^ 63) then some (pos n) else none

negative : Option ℕ → Option ℤ
negative none = none
negative (some n) = if leb n (2 ^ 63) then some (sub_ℕ 0 n) else none

unfoldable pub parse_int : Bytes → Option ℤ
unfolding unsigned nonnegative negative
parse_int [] = none
parse_int (c ∷ s) =
    if nat_beq c b'-'
    then negative (unsigned s)
    else if nat_beq c b'+'
    then nonnegative (unsigned s)
    else nonnegative (unsigned (c ∷ s))

scan-digits : (fuel n : ℕ) (out : Bytes) → n ≤ fuel → scan (digits fuel n out) 0 ≡ scan out n
unfolding digits scan
scan-digits zero n out h = ground arith
scan-digits (suc fuel) n out h = ground (arith, scan-digits fuel (n / 10) ((b'0' + n % 10) ∷ out))

-- A digit stands first.
abbrev Starts : Bytes → Type 0
Starts s = (c : ℕ) × (rest : Bytes) × (s ≡ c ∷ rest) × (b'0' ≤ c) × (c ≤ b'9')

digits-Starts : (fuel n : ℕ) (out : Bytes) → Starts out → Starts (digits fuel n out)
unfolding digits
digits-Starts zero n out s = s
digits-Starts (suc fuel) n out s = elim (Bool-cases (nat_beq n 0)) [
  | inl done ↦ rw (done, digits) s
  | inr more ↦
      rw (more, digits)
        (digits-Starts fuel (n / 10) ((b'0' + n % 10) ∷ out)
          (b'0' + n % 10, out, refl, omega arith, omega arith))
]

suc-ne-zero : (n : ℕ) → nat_beq (suc n) 0 ≡ false
suc-ne-zero n = ground arith

format_nat-Starts : (n : ℕ) → Starts (format_nat n)
unfolding format_nat
format_nat-Starts zero = (b'0', [], refl, omega arith, omega arith)
format_nat-Starts (suc n) =
    rw (suc-ne-zero n, digits)
      (digits-Starts n (suc n / 10) ((b'0' + suc n % 10) ∷ [])
        (b'0' + suc n % 10, [], refl, omega arith, omega arith))

scan-format_nat : (n : ℕ) → scan (format_nat n) 0 ≡ some n
unfolding format_nat scan
scan-format_nat zero = refl
scan-format_nat (suc n) = rw (suc-ne-zero n) (scan-digits (suc n) (suc n) [] (omega arith))

unsigned-scan : (s : Bytes) → Starts s → unsigned s ≡ scan s 0
unfolding unsigned
unsigned-scan [] (c, rest, e, _, _) = cc e
unsigned-scan (c ∷ s) starts = refl

-- A text that starts with a digit has no sign.
parse_int-unsigned : (s : Bytes) → Starts s → parse_int s ≡ nonnegative (unsigned s)
unfolding parse_int
parse_int-unsigned s (c, rest, e, low, high) = rw e (ground arith)

unsigned-format_nat : (n : ℕ) → unsigned (format_nat n) ≡ some n
unsigned-format_nat n = unsigned-scan (format_nat n) (format_nat-Starts n) ∙ scan-format_nat n

-- Each number of 64 bits is read back from its decimal print.
pub parse_int-format_int : (a : ℤ) → InInt64 a → parse_int (format_int a) ≡ some a
unfolding format_int nonnegative
parse_int-format_int (pos n) h =
    parse_int-unsigned (format_nat n) (format_nat-Starts n)
    ∙ ap nonnegative (unsigned-format_nat n)
    ∙ ground arith
parse_int-format_int (negsuc n) h =
    unfold parse_int negative in rw (unsigned-format_nat (suc n)) (ground arith)

-- A print is not empty.
pub format_int-cons : (a : ℤ) → (c : ℕ) × (s : Bytes) × (format_int a ≡ c ∷ s)
unfolding format_int
format_int-cons (pos n) = let (c, s, e, _, _) = format_nat-Starts n in (c, s, e)
format_int-cons (negsuc n) = (b'-', format_nat (suc n), refl)
