-- ===== src/Replica/Backoff.antt =====
-- internal/replica/service.go: the delay before a reconnect. Durations are in nanoseconds.
pub mod Growth
mod Tests
use novig_take_home.Base.{ℕ, zero, suc, ◌/◌, Bool, if◌then◌else◌, ◌||◌}
use novig_take_home.Base.Int.{ℤ, pos, negsuc, sub_ℕ, ltb_ℤ, leb_ℤ, add64}

-- Go's division by two, which truncates towards zero.
unfoldable pub half : ℤ → ℤ
half (pos n) = pos (n / 2)
half (negsuc n) = sub_ℕ 0 (suc n / 2)

-- The loop of `exponentialBackoffDuration`, over the attempts that are left.
unfoldable pub doubling : ℕ → ℤ → ℤ → ℤ
unfolding half
doubling zero delay limit = delay
doubling (suc i) delay limit =
    let rest = doubling i (add64 delay delay) limit in
    if leb_ℤ limit delay then limit else if ltb_ℤ (half limit) delay then limit else rest

abbrev pub initial_or_default : ℤ → ℤ
initial_or_default initial = if leb_ℤ initial (pos 0) then pos 500_000_000 else initial

abbrev pub cap_or_initial : ℤ → ℤ → ℤ
cap_or_initial initial limit = if leb_ℤ limit (pos 0) || ltb_ℤ limit initial then initial else limit

unfoldable pub backoff_after : ℤ → ℤ → ℤ → ℤ
unfolding doubling
backoff_after initial limit (pos attempt) = doubling attempt initial limit
backoff_after initial limit (negsuc _) = initial

unfoldable pub exponential_backoff_duration : ℤ → ℤ → ℤ → ℤ
unfolding backoff_after
exponential_backoff_duration initial limit attempt =
    let first = initial_or_default initial in
    backoff_after first (cap_or_initial first limit) attempt

-- float64, with the operations that the jitter uses and its literals.
pub record Float64 : Type 1 where
  pub Float : Type 0
  pub one_half : Float
  pub one_tenth : Float
  pub two : Float
  pub plus : Float → Float → Float
  pub times : Float → Float → Float
  pub less : Float → Float → Bool
  pub of_int64 : ℤ → Float
  pub to_int64 : Float → ℤ

module _ (f : Float64) where
  unfoldable pub jittered : f.Float → ℤ → ℤ
  jittered random base_delay =
      let jitter = f.plus f.one_half random in
      let at_least = if f.less jitter f.one_tenth then f.one_tenth else jitter in
      let at_most = if f.less f.two at_least then f.two else at_least in
      f.to_int64 (f.times (f.of_int64 base_delay) at_most)

  abbrev pub millisecond : ℤ
  millisecond = pos 1_000_000

  unfoldable pub clamp_delay : ℤ → ℤ → ℤ
  clamp_delay delay max =
      if ltb_ℤ max delay then max else if ltb_ℤ delay millisecond then millisecond else delay

  -- The number of attempts so far is the service's; it is one more afterwards.
  unfoldable pub next_reconnect_delay : ℤ → ℤ → f.Float → ℤ → ℤ × ℤ
  unfolding clamp_delay jittered exponential_backoff_duration
  next_reconnect_delay backoff max random attempts = (
    clamp_delay (jittered random (exponential_backoff_duration backoff max attempts)) max,
    add64 attempts (pos 1),
  )
