-- ===== src/Replica/Backoff/Growth.antt =====
-- The backoff in closed form, and the bounds of the delay.
use novig_take_home.Base.{
  ℕ, zero, suc, ◌+◌, ◌*◌, ◌^◌, ◌≤◌, ◌<◌, ◌≡◌, ◌∙◌, ap, refl, arith, if◌then◌else◌, Bool-cases, inl,
  inr, leb,
}
use native.Mathlib.Nat.{two-pow-succ, mul-add, add-mul}
use novig_take_home.Base.Int.{ℤ, pos, negsuc, pos_part, InInt64, add64, int64, ◌+ℤ◌}
use novig_take_home.Replica.Backoff.{
  half, doubling, initial_or_default, cap_or_initial, backoff_after, exponential_backoff_duration,
}

-- The delay after so many doublings, as long as it is no more than the cap.
abbrev pub capped : ℕ → ℕ → ℕ → ℕ
capped attempts delay limit = let d = delay * 2 ^ attempts in if leb d limit then d else limit

double_lem : (d : ℕ) → d + d < 2 ^ 63 → add64 (pos d) (pos d) ≡ pos (d + d)
unfolding add64 int64 ◌+ℤ◌
double_lem d h = ground arith

pow_double : (d k : ℕ) → (d + d) * 2 ^ k ≡ d * 2 ^ suc k
pow_double d k = rw (two-pow-succ, mul-add, add-mul) refl

grows : (d k : ℕ) → d ≤ d * 2 ^ k
grows d zero = omega arith
grows d (suc k) = omega (arith, grows (d + d) k, pow_double d k)

pub doubling_lem :
    (i d c : ℕ) → 0 < d → d ≤ c → c < 2 ^ 63 → doubling i (pos d) (pos c) ≡ pos (capped i d c)
unfolding doubling half
doubling_lem zero d c pd dc cb = ground arith
doubling_lem (suc i) d c pd dc cb = elim (Bool-cases (leb (d + d) c)) [
  | inl fits ↦
      let rest = doubling_lem i (d + d) c (omega arith) (ground (arith, fits)) cb in
      ground (arith, fits, rest, double_lem d, pow_double d i)
  | inr over ↦ ground (arith, over, pow_double d i, grows (d + d) i)
]

-- The first delay and the cap, with the defaults put in.
abbrev pub first_delay : ℤ → ℕ
first_delay initial = pos_part (initial_or_default initial)

abbrev pub cap_delay : ℤ → ℤ → ℕ
cap_delay initial limit = pos_part (cap_or_initial (initial_or_default initial) limit)

first_delay_lem :
    (initial : ℤ)
    → (initial_or_default initial ≡ pos (first_delay initial)) × (0 < first_delay initial)
first_delay_lem initial = ground arith

cap_delay_lem :
    (initial limit : ℤ)
    → InInt64 initial
    → InInt64 limit
    → (cap_or_initial (initial_or_default initial) limit ≡ pos (cap_delay initial limit))
      × (first_delay initial ≤ cap_delay initial limit)
      × (cap_delay initial limit < 2 ^ 63)
cap_delay_lem initial limit hi hc = (ground arith, ground arith, ground arith)

-- For durations in 64 bits, with the defaults put in: the delay after any number of attempts is the
-- first one doubled that often, or the cap where that is lower. A negative number counts as none.
pub exponential_backoff_duration_lem :
    (initial limit attempts : ℤ)
    → InInt64 initial
    → InInt64 limit
    → exponential_backoff_duration initial limit attempts
      ≡ pos (capped (pos_part attempts) (first_delay initial) (cap_delay initial limit))
unfolding exponential_backoff_duration backoff_after
exponential_backoff_duration_lem initial limit (pos n) hi hc =
    let (first, positive) = first_delay_lem initial in
    let (last, ordered, room) = cap_delay_lem initial limit hi hc in
    ap (λ z. doubling n z (cap_or_initial (initial_or_default initial) limit)) first
    ∙ ap (doubling n (pos (first_delay initial))) last
    ∙ doubling_lem n (first_delay initial) (cap_delay initial limit) positive ordered room
exponential_backoff_duration_lem initial limit (negsuc n) hi hc =
    let (last, ordered, room) = cap_delay_lem initial limit hi hc in
    ground (arith, first_delay_lem initial, ordered)
