-- ===== src/Replica/Service/Idle/Timely.antt =====
-- The stream is cancelled only after it was idle for the whole timeout.
use novig_take_home.Base.{
  ℕ, ◌+◌, ◌≤◌, true, false, ◌≡◌, refl, ap, ◌∙◌, ◌⊎◌, inl, inr, List, [], ◌∷◌, none, some,
  Bool-cases,
}
use novig_take_home.Base.Int.{ℤ, pos_part}
use novig_take_home.Replica.Service.Idle.{
  Timers, Wake, context_done, line_read, looks, idle_error, Outcome, waiting, returned, cancelled,
  on_line, monitor_loop, monitor_stream_idle, is_some,
}

module _ (ts : Timers) (timeout : ℤ) where
  -- The timer runs for the timeout after the last line, and its channel is empty.
  abbrev pub IsRunning : ℕ → ts.Timer → Type 0
  IsRunning last t = (ts.due t ≡ some (last + pos_part timeout)) × (ts.ready t ≡ false)

  -- Or it has fired, at some time no sooner than that.
  abbrev IsArmed : ℕ → ℕ → ts.Timer → Type 0
  IsArmed last now t =
      IsRunning last t ⊎ (ts.due t ≡ none) × (ts.ready t ≡ true) × (last + pos_part timeout ≤ now)

  -- What may come of the wakes, where the last line before them was read at `last`.
  abbrev pub MayEnd : ℕ → List Wake → Outcome ts → Type 0
  MayEnd last [] o = (t : ts.Timer) × (o ≡ waiting t) × IsRunning last t
  MayEnd last (context_done ∷ rest) o = o ≡ returned
  MayEnd last (line_read now ∷ rest) o = MayEnd now rest o
  MayEnd last (looks now ∷ rest) o =
      (o ≡ cancelled now (some (idle_error timeout))) × (last + pos_part timeout ≤ now)
      ⊎ MayEnd last rest o

  on_line-IsRunning :
      (last now : ℕ) (t : ts.Timer) → IsArmed last now t → IsRunning now (on_line ts timeout now t)
  unfolding on_line
  on_line-IsRunning last now t (inl (due, empty)) =
      let active = ts.stop_result t ∙ ap is_some due in
      let (set, kept) = ts.reset_due timeout now (ts.stop t).1 in
      rw (active, on_line) (set, kept ∙ (ts.stop_keeps t).1 ∙ empty)
  on_line-IsRunning last now t (inr (due, full, passed)) =
      let active = ts.stop_result t ∙ ap is_some due in
      let (set, kept) = ts.reset_due timeout now (ts.receive (ts.stop t).1) in
      rw (active, on_line) (set, kept ∙ (ts.receive_takes (ts.stop t).1).0)

  passed_lem :
      (last now : ℕ) (t : ts.Timer)
      → IsArmed last now t
      → ts.ready t ≡ true
      → last + pos_part timeout ≤ now
  passed_lem last now t (inl (due, empty)) full = cc (empty, full)
  passed_lem last now t (inr (due, _, passed)) full = passed

  running_lem :
      (last now : ℕ) (t : ts.Timer) → IsArmed last now t → ts.ready t ≡ false → IsRunning last t
  running_lem last now t (inl running) empty = running
  running_lem last now t (inr (due, full, passed)) empty = absurd (cc (full, empty))

  monitor_loop-MayEnd :
      (wakes : List Wake) (last : ℕ) (t : ts.Timer)
      → IsRunning last t
      → MayEnd last wakes (monitor_loop ts timeout none wakes t)
  unfolding monitor_loop
  monitor_loop-MayEnd [] last t running = (t, refl, running)
  monitor_loop-MayEnd (context_done ∷ rest) last t running = refl
  monitor_loop-MayEnd (line_read now ∷ rest) last t running =
      monitor_loop-MayEnd rest now _
        (on_line-IsRunning last now (ts.at now t) (ts.at_running now _ t running.0 running.1))
  monitor_loop-MayEnd (looks now ∷ rest) last t running =
      let armed = ts.at_running now _ t running.0 running.1 in
      elim (Bool-cases (ts.ready (ts.at now t))) [
        | inl full ↦
            inl (rw (full, monitor_loop) refl, passed_lem last now (ts.at now t) armed full)
        | inr empty ↦
            rw (empty, monitor_loop)
              (inr (
                monitor_loop-MayEnd rest last (ts.at now t)
                  (running_lem last now (ts.at now t) armed empty)))
      ]

  -- Whatever the order of lines and looks at the timer: the stream is cancelled only by a look that
  -- comes the whole timeout after the last line before it, or after the start, and with the error
  -- of an idle stream. A monitor that waits on has a timer that is due that long after the last
  -- line, and no older value in its channel.
  pub monitor_stream_idle-MayEnd :
      (wakes : List Wake) (start : ℕ)
      → MayEnd start wakes (monitor_stream_idle ts timeout none start wakes)
  unfolding monitor_stream_idle
  monitor_stream_idle-MayEnd wakes start =
      monitor_loop-MayEnd wakes start (ts.new_timer timeout start) (ts.new_timer_due timeout start)
