-- ===== src/Replica/Service/Idle/Tests.antt =====
-- A timer as its due time and the place of its channel.
use novig_take_home.Base.{
  ℕ, ◌+◌, ◌≤◌, Bool, true, false, ◌≡◌, refl, ◌⊎◌, inl, inr, List, [], ◌∷◌, Option, none, some,
  arith, subst, sym, if◌then◌else◌, leb, Bool-cases,
}
use novig_take_home.Base.Int.{pos, pos_part}
use novig_take_home.Replica.Service.Idle.{
  Timers, Wake, line_read, looks, is_some, cancelled, monitor_stream_idle, idle_error,
}
use novig_take_home.Replica.Service.Idle.Timely.{MayEnd, monitor_stream_idle-MayEnd}

abbrev Cell : Type 0
Cell = Option ℕ × Bool

abbrev fire : ℕ → ℕ → Bool → Cell
fire now dl full = if leb dl now then (none, true) else (some dl, full)

abbrev cell_at : ℕ → Cell → Cell
cell_at now (none, full) = (none, full)
cell_at now (some dl, full) = fire now dl full

due_lem : (now dl : ℕ) → leb dl now ≡ true → dl ≤ now
due_lem now dl h = ground arith

fire_lem :
    (now dl : ℕ)
    → ((fire now dl false).0 ≡ some dl) × ((fire now dl false).1 ≡ false)
      ⊎ ((fire now dl false).0 ≡ none) × ((fire now dl false).1 ≡ true) × (dl ≤ now)
fire_lem now dl = elim (Bool-cases (leb dl now)) [
  | inl passed ↦ rw passed (inr (refl, refl, due_lem now dl passed))
  | inr early ↦ rw early (inl (refl, refl))
]

some_inj : (x dl : ℕ) → some x ≡ some dl → x ≡ dl
some_inj x dl h = cc h

abbrev Fires : ℕ → ℕ → ℕ → Bool → Type 0
Fires now x dl full =
    ((fire now x full).0 ≡ some dl) × ((fire now x full).1 ≡ false)
    ⊎ ((fire now x full).0 ≡ none) × ((fire now x full).1 ≡ true) × (dl ≤ now)

cell_at-running :
    (now dl : ℕ) (t : Cell)
    → t.0 ≡ some dl
    → t.1 ≡ false
    → ((cell_at now t).0 ≡ some dl) × ((cell_at now t).1 ≡ false)
      ⊎ ((cell_at now t).0 ≡ none) × ((cell_at now t).1 ≡ true) × (dl ≤ now)
cell_at-running now dl (none, full) due empty = cc due
cell_at-running now dl (some x, full) due empty =
    subst (λ z. Fires now z dl full) (sym (some_inj x dl due))
      (subst (λ b. Fires now dl dl b) (sym empty) (fire_lem now dl))

abbrev cells : Timers
cells = record {
  Timer = Cell;
  due = λ t. t.0;
  ready = λ t. t.1;
  new_timer = λ d now. (some (now + pos_part d), false);
  stop = λ t. (is_some t.0, (none, t.1));
  receive = λ t. (t.0, false);
  reset = λ d now t. (some (now + pos_part d), t.1);
  at = cell_at;
  new_timer_due = λ d now. (refl, refl);
  at_running = cell_at-running;
  stop_result = λ t. refl;
  stop_keeps = λ t. (refl, refl);
  receive_takes = λ t. (refl, refl);
  reset_due = λ d now t. (refl, refl);
}

-- The timer has fired when the second line is read, and its value is dropped then.
abbrev wakes : List Wake
wakes = line_read 5 ∷ line_read 15 ∷ looks 24 ∷ looks 25 ∷ []

monitor_stream_idle-MayEnd_example :
    MayEnd cells (pos 10) 0 wakes (monitor_stream_idle cells (pos 10) none 0 wakes)
monitor_stream_idle-MayEnd_example = monitor_stream_idle-MayEnd cells (pos 10) wakes 0

late_line :
    monitor_stream_idle cells (pos 10) none 0 wakes ≡ cancelled 25 (some (idle_error (pos 10)))
unfolding monitor_stream_idle
late_line = refl
