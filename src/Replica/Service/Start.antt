-- ===== src/Replica/Service/Start.antt =====
-- internal/replica/service.go: the loop of `Start`, with `waitBackoff`. A round is one pass of the
-- loop; the heartbeats, which only read the state, run beside it.
pub mod Resumes
use novig_take_home.Base.{Bool, true, false, List, [], ◌∷◌, Option, none, some, if◌then◌else◌, ◌||◌}
use novig_take_home.Base.Int.{ℤ}
use novig_take_home.Base.Decimal.{Bytes}
use novig_take_home.Base.Errors.{Error, is, seq_gap, eof, canceled, Result}
use novig_take_home.Domain.Json.{Json}
use novig_take_home.Replica.Backoff.{Float64, next_reconnect_delay}
use novig_take_home.Replica.Store.{Sqlite}
use novig_take_home.Replica.Service.State.{Service, set_connected, set_last_error}
use novig_take_home.Replica.Service.Refresh.{refresh_from_snapshot}
use novig_take_home.Replica.Service.Connection.{
  Reply, SnapshotBody, fetch_snapshot, Frames, consume_stream, ensure_bootstrapped,
}

module _ (f : Float64) where
  -- What a round meets: whether the context is done at its start and after the stream, the answers
  -- of the network with the times at which they are there, and the random number of the delay.
  pub record Round : Type 0 where
    pub done : Bool
    pub snapshot : Reply (Result SnapshotBody)
    pub snapshot_ms : ℤ
    pub stream : Bytes → Reply Frames
    pub done_after : Bool
    pub refresh : Reply (Result SnapshotBody)
    pub refresh_ms : ℤ
    pub random : f.Float

  -- How a round ends: the loop returns, goes on at once, or goes on after a delay.
  pub data Next : Type 0 where
    returns again : Next
    waits : ℤ → Next

  module _ (sql : Sqlite) (json : Json) where
    unfoldable pub wait_backoff : f.Float → Service sql → Next × Service sql
    wait_backoff random s =
        let (delay, attempts) =
          next_reconnect_delay f s.cfg.reconnect_backoff s.cfg.reconnect_backoff_max random
            s.reconnect_attempts in
        (waits delay, record s { reconnect_attempts = attempts })

    unfoldable pub after_refresh : f.Float → Option Error × Service sql → Next × Service sql
    unfolding wait_backoff
    after_refresh random (none, s) = (again, s)
    after_refresh random (some e, s) = wait_backoff random (set_last_error sql (some e) s)

    unfoldable pub on_gap : Round → Error → Service sql → Next × Service sql
    unfolding after_refresh
    on_gap r e s = after_refresh r.random (
        refresh_from_snapshot sql (fetch_snapshot r.refresh) r.refresh_ms
          (set_last_error sql (some e) s))

    unfoldable pub after_stream : Round → Error × Service sql → Next × Service sql
    unfolding wait_backoff on_gap
    after_stream r (e, s) =
        if r.done_after || is e canceled
        then (returns, set_connected sql false s)
        else if is e seq_gap
        then on_gap r e s
        else if is e eof
        then wait_backoff r.random (set_connected sql false s)
        else wait_backoff r.random (set_connected sql false (set_last_error sql (some e) s))

    unfoldable pub bootstrapped_round : Round → Option Error × Service sql → Next × Service sql
    unfolding wait_backoff after_stream
    bootstrapped_round r (some e, s) =
        wait_backoff r.random (set_last_error sql (some e) (set_connected sql false s))
    bootstrapped_round r (none, s) = after_stream r (consume_stream sql json r.stream s)

    unfoldable pub start_round : Round → Service sql → Next × Service sql
    unfolding bootstrapped_round
    start_round r s =
        if r.done
        then (returns, s)
        else bootstrapped_round r (ensure_bootstrapped sql r.snapshot r.snapshot_ms s)

    -- The delays, and the state after the rounds or at the return.
    unfoldable pub start : List Round → Service sql → List Next × Service sql
    start [] s = ([], s)
    start (r ∷ rounds) s =
        let (next, s') = start_round r s in
        let (rest, after) = start rounds s' in
        elim next [
          | returns ↦ (returns ∷ [], s')
          | again ↦ (again ∷ rest, after)
          | waits delay ↦ (waits delay ∷ rest, after)
        ]
