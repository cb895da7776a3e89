-- ===== src/Replica/Service/Idle.antt =====
-- internal/replica/service.go: `monitorStreamIdle`. `time.Timer` of Go 1.22 is a parameter, whose
-- channel keeps a value after `Stop` and `Reset`. Times are those of a monotonic clock.
pub mod Timely
mod Tests
use novig_take_home.Base.{
  ℕ, ◌+◌, ◌≤◌, Bool, true, false, ◌≡◌, ◌⊎◌, List, [], ◌∷◌, Option, none, some, if◌then◌else◌,
}
use novig_take_home.Base.Int.{ℤ, pos_part}
use novig_take_home.Base.Errors.{Error, wrap, sentinel, stream_idle_timeout, int}

abbrev pub is_some : Option ℕ → Bool
is_some none = false
is_some (some _) = true

pub record Timers : Type 1 where
  pub Timer : Type 0
  -- When it is due, while it runs.
  pub due : Timer → Option ℕ
  -- Whether its channel holds a value.
  pub ready : Timer → Bool
  pub new_timer : ℤ → ℕ → Timer
  pub stop : Timer → Bool × Timer
  -- A receive that does not wait.
  pub receive : Timer → Timer
  pub reset : ℤ → ℕ → Timer → Timer
  -- The timer when the clock has gone on.
  pub at : ℕ → Timer → Timer
  pub new_timer_due :
      (d : ℤ) (now : ℕ)
      → (due (new_timer d now) ≡ some (now + pos_part d)) × (ready (new_timer d now) ≡ false)
  -- It fires once, when the duration has passed at least.
  pub at_running :
      (now dl : ℕ) (t : Timer)
      → due t ≡ some dl
      → ready t ≡ false
      → (due (at now t) ≡ some dl) × (ready (at now t) ≡ false)
        ⊎ (due (at now t) ≡ none) × (ready (at now t) ≡ true) × (dl ≤ now)
  pub stop_result : (t : Timer) → (stop t).0 ≡ is_some (due t)
  pub stop_keeps : (t : Timer) → (due (stop t).1 ≡ none) × (ready (stop t).1 ≡ ready t)
  pub receive_takes : (t : Timer) → (ready (receive t) ≡ false) × (due (receive t) ≡ due t)
  pub reset_due :
      (d : ℤ) (now : ℕ) (t : Timer)
      → (due (reset d now t) ≡ some (now + pos_part d)) × (ready (reset d now t) ≡ ready t)

-- What the monitor's select meets: the end of the context, its receipt of the signal that a line
-- was read, or a look at the timer's channel, at which no signal is pending.
pub data Wake : Type 0 where
  context_done : Wake
  line_read : ℕ → Wake
  looks : ℕ → Wake

abbrev pub idle_error : ℤ → Error
idle_error timeout = wrap "%w after %s" (int timeout ∷ []) (sentinel stream_idle_timeout)

-- A send to a channel of one place that does not wait.
abbrev pub offered : Error → Option Error → Option Error
offered e none = some e
offered e (some first) = some first

module _ (ts : Timers) where
  -- The monitor waits on; it has returned; or it has cancelled the stream, at a time, and left this
  -- in the channel of its error.
  pub data Outcome : Type 0 where
    waiting : ts.Timer → Outcome
    returned : Outcome
    cancelled : ℕ → Option Error → Outcome

  unfoldable pub on_line : ℤ → ℕ → ts.Timer → ts.Timer
  on_line timeout now t =
      let (active, t') = ts.stop t in ts.reset timeout now (if active then t' else ts.receive t')

  unfoldable pub monitor_loop : ℤ → Option Error → List Wake → ts.Timer → Outcome
  unfolding on_line
  monitor_loop timeout idle_err [] t = waiting t
  monitor_loop timeout idle_err (context_done ∷ rest) t = returned
  monitor_loop timeout idle_err (line_read now ∷ rest) t =
      monitor_loop timeout idle_err rest (on_line timeout now (ts.at now t))
  monitor_loop timeout idle_err (looks now ∷ rest) t =
      let after = monitor_loop timeout idle_err rest (ts.at now t) in
      if ts.ready (ts.at now t)
      then cancelled now (offered (idle_error timeout) idle_err)
      else after

  unfoldable pub monitor_stream_idle : ℤ → Option Error → ℕ → List Wake → Outcome
  unfolding monitor_loop
  monitor_stream_idle timeout idle_err start wakes =
      monitor_loop timeout idle_err wakes (ts.new_timer timeout start)
