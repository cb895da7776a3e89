-- ===== src/EndToEnd/Tests.antt =====
-- A core with one suspension in its log, and a new replica that reads it.
use novig_take_home.Replica.Validate.{validate_event_envelope}
use novig_take_home.Replica.Store.{is_event_applied, count_applied}
use novig_take_home.Base.{true, subst}
use novig_take_home.Base.Errors.{Error, is, seq_gap}
use novig_take_home.Replica.Fixture.{suspension}
use novig_take_home.Replica.Service.Connection.{consume_stream}
use novig_take_home.Replica.Service.Process.{process_event}
use novig_take_home.Replica.Service.Start.{start, again, waits}
use novig_take_home.EndToEnd.Recovery.{start-recovers}
use novig_take_home.Base.{◌≡◌, refl, List, [], ◌∷◌, some, arith, string_eq}
use novig_take_home.Base.Int.{ℤ, pos}
use novig_take_home.Base.Errors.{sentinel, eof, ok}
use novig_take_home.Base.Map.{get}
use novig_take_home.Core.Fixture.{table, two_states, suspended_market}
use novig_take_home.Core.Service.Fixture.{
  suspended_event, one_event_core, one_event_core-Consistent,
}
use novig_take_home.Core.Service.Replay.{last_state}
use novig_take_home.Replica.Store.{is_applied}
use novig_take_home.Replica.Fixture.{in_memory, in_memory_reliable, empty_tables, full_config}
use novig_take_home.Replica.Service.State.{Service, restored}
use novig_take_home.Replica.Service.Stream.{Line, data_line, consume_lines}
use novig_take_home.Replica.Service.Stream.Lines.{at_end, carries}
use novig_take_home.EndToEnd.{converges}
use novig_take_home.EndToEnd.Wire.{Delivered, stream-Delivered, IsReadable, fits_line, Cut}
use novig_take_home.Base.Decimal.{parse_int, format_int}
use novig_take_home.Base.Int.{add64, int64, ◌+ℤ◌}
use novig_take_home.Core.EventStore.{select_from, events_from_seq}
use novig_take_home.Core.Hub.{receive}
use novig_take_home.Core.Stream.{Stream, parse_from_seq, from_channel, request_done, step}
use novig_take_home.Core.Stream.Writing.{payloads}
use novig_take_home.Core.Stream.Schedule.{Act, handles, act, run}
use novig_take_home.Core.Stream.Fixture.{
  buffer, opened, subscribed_core, open_stream_first, decode_event, decode_event-encode_event,
}
use novig_take_home.Replica.Service.Connection.{stream_query}
use novig_take_home.Core.Service.State as Core
use novig_take_home.EndToEnd.Bootstrap.{start_round-converges}
use novig_take_home.Replica.Fixture.{tenths}
use novig_take_home.Replica.Store.{set_checkpoint}
use novig_take_home.Replica.Service.Connection.{response, no_response, Frames}
use novig_take_home.Replica.Service.Start.{Round, start_round}
use novig_take_home.Core.Service.Fixture.{open_core, open_core-Consistent}
use novig_take_home.Base.{false, none, String, ◌==◌, if◌then◌else◌}
use novig_take_home.Base.Errors.{errorf, Result, err, ok_injective}
use mathlib.Core.List.{Mem}
use novig_take_home.Core.ReplicaHealth.{ReplicaHeartbeat}
use novig_take_home.Core.Service.Replicas.{replica_statuses}
use novig_take_home.Replica.Service.Heartbeat.{HeartbeatRequest, heartbeat_request, send_heartbeat}
use novig_take_home.EndToEnd.Heartbeat.{posted, network, shown, send_heartbeat-shown}

abbrev behind : Service in_memory
behind = restored in_memory full_config empty_tables (pos 0)

abbrev frames : List (Line × ℤ)
frames = (data_line (ok suspended_event), pos 200) ∷ []

converges_example :
    let r = consume_lines in_memory two_states frames (sentinel eof) behind in
    (r.0 ≡ sentinel eof)
    × (r.1.last_applied_seq ≡ pos 1)
    × (get one_event_core.markets "m1" ≡ some suspended_market)
    × (get r.1.markets "m1" ≡ some suspended_market)
unfolding last_state is_applied
converges_example =
    converges table in_memory two_states in_memory_reliable [] (suspended_event ∷ []) 0 1
      one_event_core frames (sentinel eof) behind "m1" suspended_market one_event_core-Consistent
      refl (omega arith) (carries suspended_event (pos 200) at_end) ((λ h. cc h, λ h. cc h), tt)
      (refl, tt, tt) refl refl

-- A round against the core: its snapshot before the event, and a stream of the event.
abbrev stream_frames : Frames
stream_frames = record { lines = frames; timed_out = false; scan_error = none }

abbrev against_core : Round tenths
against_core = record {
  done = false;
  snapshot =
      response (pos 200) ""
        (ok (record { last_seq = open_core.last_seq; markets = some open_core.markets }));
  snapshot_ms = pos 100;
  stream = λ query. response (pos 200) "" stream_frames;
  done_after = false;
  refresh = no_response (errorf "refused" []);
  refresh_ms = pos 300;
  random = pos 5;
}

start_round-converges_example :
    let s = (start_round tenths in_memory two_states against_core behind).1 in
    (s.last_applied_seq ≡ pos 1)
    × (get one_event_core.markets "m1" ≡ some suspended_market)
    × (get s.markets "m1" ≡ some suspended_market)
unfolding last_state is_applied get set_checkpoint
start_round-converges_example =
    start_round-converges table in_memory two_states tenths in_memory_reliable [] []
      (suspended_event ∷ []) 0 1 open_core one_event_core open_core.markets "" "" stream_frames
      against_core behind "m1" suspended_market open_core-Consistent one_event_core-Consistent
      (omega arith) (refl, tt) (λ k. refl) refl (λ seq ts_ms db. refl) refl (omega arith) refl refl
      refl refl (carries suspended_event (pos 200) at_end) refl refl ((λ h. cc h, λ h. cc h), tt)
      (refl, tt, tt) refl

-- The handler reads its backlog, waits, and the request ends.
abbrev handler_acts : List Act
handler_acts = handles from_channel ∷ handles from_channel ∷ handles request_done ∷ []

first_query : parse_from_seq (stream_query in_memory behind) ≡ some (pos 1)
unfolding parse_from_seq stream_query parse_int format_int add64 int64 ◌+ℤ◌
first_query = refl

in_log :
    (st : Stream buffer) (core : Core.Service table)
    → run buffer table two_states handler_acts opened subscribed_core ≡ some (st, core)
    → core.store ≡ suspended_event ∷ []
unfolding run act step events_from_seq select_from receive get
in_log st core h = cc h

no_error :
    (st : Stream buffer) (core : Core.Service table)
    → run buffer table two_states handler_acts opened subscribed_core ≡ some (st, core)
    → st.status ≡ none
unfolding run act step events_from_seq select_from receive get
no_error st core h = cc h

suspended_event-IsReadable : IsReadable buffer decode_event suspended_event
suspended_event-IsReadable text h = (
  decode_event-encode_event suspended_event text h,
  subst (λ z. fits_line z ≡ true) (ok_injective "event" text h) refl,
)

-- The stream goes on to its end.
abbrev uncut : Cut
uncut = record { timed_out = false; broken = none }

stream-Delivered_example :
    Delivered table in_memory two_states buffer decode_event
      (pos 200)
      0
      uncut
      ""
      behind
      (run buffer table two_states handler_acts opened subscribed_core)
unfolding payloads is_applied select_from
stream-Delivered_example =
    stream-Delivered table in_memory two_states buffer decode_event in_memory_reliable [] []
      (suspended_event ∷ []) 0 1 one_event_core [] handler_acts opened subscribed_core (pos 200)
      uncut "" behind one_event_core-Consistent refl refl refl (omega arith)
      (open_stream_first (stream_query in_memory behind) first_query)
      (λ st core h. rw (in_log st core h) (
        no_error st core h,
        ((λ e. cc e, λ e. cc e), tt),
        (refl, tt, tt),
        (suspended_event-IsReadable, tt),
      ))

-- One heartbeat's text.
abbrev encode_heartbeat : HeartbeatRequest → Result String
encode_heartbeat r = ok "heartbeat"

abbrev decode_heartbeat : String → Result ReplicaHeartbeat
decode_heartbeat payload =
    if payload == "heartbeat"
    then (ok (record {
      replica_id = "replica-1";
      connected = false;
      last_applied_seq = pos 0;
      core_last_seq = pos 0;
      last_sync_at = pos 0;
    }))
    else err (errorf "unexpected text" [])

send_heartbeat-shown_example :
    let after =
      (posted table decode_heartbeat "heartbeat" (pos 900) (λ i. pos 900) one_event_core).1 in
    (send_heartbeat in_memory encode_heartbeat
        (network table decode_heartbeat one_event_core (pos 900) (λ i. pos 900))
        behind
      ≡ none)
    × Mem
        (shown table in_memory one_event_core behind (pos 900) (pos 1_000))
        (replica_statuses table (pos 1_000) after).0.replicas
unfolding heartbeat_request
send_heartbeat-shown_example =
    send_heartbeat-shown table in_memory encode_heartbeat decode_heartbeat one_event_core behind
      "heartbeat" (λ i. pos 900) (pos 900) (pos 1_000) (λ h. cc h) refl refl

-- A replica that has its snapshot reads an event of number 2 first.
abbrev bootstrapped_behind : Service in_memory
bootstrapped_behind = record behind { bootstrapped = true }

abbrev ahead_frames : Frames
ahead_frames = record {
  lines = (data_line (ok suspension), pos 200) ∷ [];
  timed_out = false;
  scan_error = none;
}

abbrev gap_round : Round tenths
gap_round = record {
  done = false;
  snapshot = no_response (errorf "refused" []);
  snapshot_ms = pos 100;
  stream = λ query. response (pos 200) "" ahead_frames;
  done_after = false;
  refresh =
      response (pos 200) ""
        (ok (record { last_seq = open_core.last_seq; markets = some open_core.markets }));
  refresh_ms = pos 300;
  random = pos 5;
}

abbrev gap_end : Error × Service in_memory
gap_end = consume_stream in_memory two_states gap_round.stream bootstrapped_behind

is_gap : (is gap_end.0 seq_gap ≡ true) × (gap_end.1.last_applied_seq ≡ pos 0)
unfolding consume_stream process_event is consume_lines validate_event_envelope is_event_applied
    count_applied add64 int64 ◌+ℤ◌
is_gap = (refl, refl)

start-recovers_example :
    let (nexts, s) =
      start tenths in_memory two_states (gap_round ∷ against_core ∷ []) bootstrapped_behind in
    ((delay : ℤ) × (nexts ≡ again ∷ waits delay ∷ []))
    × (s.last_applied_seq ≡ pos 1)
    × (get one_event_core.markets "m1" ≡ some suspended_market)
    × (get s.markets "m1" ≡ some suspended_market)
unfolding last_state is_applied get set_checkpoint consume_stream process_event is consume_lines
    validate_event_envelope is_event_applied count_applied add64 int64 ◌+ℤ◌
start-recovers_example =
    start-recovers table in_memory two_states tenths in_memory_reliable [] [] (suspended_event ∷ [])
      0 1 open_core one_event_core open_core.markets gap_end.0 gap_end.1 "" "" stream_frames
      gap_round against_core bootstrapped_behind "m1" suspended_market open_core-Consistent
      one_event_core-Consistent (omega arith) (refl, tt) (λ k. refl) refl (λ seq ts_ms db. refl)
      refl refl refl refl refl (omega arith) refl refl refl refl
      (carries suspended_event (pos 200) at_end) refl refl ((λ h. cc h, λ h. cc h), tt)
      (refl, tt, tt) refl
