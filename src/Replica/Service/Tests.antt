-- ===== src/Replica/Service/Tests.antt =====
-- A replica over tables in memory: a snapshot, an event, the same event again, and a restart.
use novig_take_home.Base.{inr, ◌≡◌, ◌↔◌, refl, List, [], ◌∷◌, true, arith, string_eq, String}
use novig_take_home.Base.Int.{ℤ, pos, ◌≤ℤ◌, add64, int64, ◌+ℤ◌}
use novig_take_home.Base.Errors.{Error, sentinel, eof, ok}
use novig_take_home.Base.Map.{Map, get, insert}
use novig_take_home.Domain.{MarketState}
use novig_take_home.Core.Fixture.{two_states, suspended_market}
use novig_take_home.Replica.Fixture.{
  in_memory_reliable, in_memory, empty_tables, config, full_config, suspension, first_snapshot,
}
use novig_take_home.Replica.Store.{
  Tables, is_applied, count_applied, insert_or_ignore, get_checkpoint, set_checkpoint,
  is_event_applied, finish, apply_in_tx, commit_in_tx, commit_applied_event,
}
use novig_take_home.Replica.Validate.{
  validate_market_state, validate_event_envelope, validate_payload,
  decode_and_validate_event_payload, validate_entry, validate_entries, validate_snapshot,
}
use novig_take_home.Replica.Validate.Accepted.{IsPayloadOf, decode_and_validate_event_payload_iff}
use novig_take_home.Replica.Validate.Snapshots.{IsAcceptable, validate_snapshot_iff}
use novig_take_home.Replica.Service.State.{
  Service, new_service, with_defaults, restored, update_core_last_seq, set_last_error,
}
use novig_take_home.Replica.Service.Process.{
  apply_event, commit_event, process_new_event, process_event,
}
use novig_take_home.Replica.Service.Process.Outcome.{Processed, process_event-Processed}
use novig_take_home.Replica.Service.Refresh.{store_snapshot, refresh_from_snapshot}
use novig_take_home.Replica.Service.Refresh.Outcome.{Refreshed, refresh_from_snapshot-Refreshed}
use novig_take_home.Replica.Service.Stream.{Line, data_line, consume_lines}
use novig_take_home.Replica.Service.Stream.Lines.{at_end, carries}
use novig_take_home.Replica.Service.Stream.CatchUp.{CaughtUp, consume_lines-CaughtUp}
use novig_take_home.Base.{false, none, some}
use novig_take_home.Base.Errors.{err, is}
use novig_take_home.Base.Int.{int_eq}
use novig_take_home.Replica.Fixture.{tenths}
use novig_take_home.Replica.Service.Connection.{
  response, no_response, fetch_snapshot, consume_stream, ensure_bootstrapped,
}
use novig_take_home.Replica.Service.Start.{Round, start_round, start, wait_backoff}
use novig_take_home.Base.Decimal.{format_int}
use novig_take_home.Replica.Backoff.{next_reconnect_delay}
use novig_take_home.Replica.Service.Start.Resumes.{start-resumes}
use novig_take_home.Replica.Service.Lifetime.{
  Call, processes, refreshes, connects, step, run, restart-resumes,
}

abbrev eof_error : Error
eof_error = sentinel eof

abbrev fresh : Service in_memory
fresh = restored in_memory full_config empty_tables (pos 0)

abbrev calls : List Call
calls =
    refreshes (ok first_snapshot) (pos 100)
    ∷ processes suspension (pos 200)
    ∷ connects true
    ∷ processes suspension (pos 300)
    ∷ []

abbrev left : Tables
left = record {
  applied_events = record { event_id = "e2"; seq = pos 2; applied_at_ms = pos 200 } ∷ [];
  checkpoint = record { last_applied_seq = pos 2; updated_at_ms = pos 200 };
}

abbrev again : Service in_memory
again = restored in_memory full_config left (pos 2)

started : new_service in_memory empty_tables config ≡ ok fresh
unfolding new_service with_defaults get_checkpoint
started = refl

stored : (run in_memory two_states calls fresh).store ≡ left
unfolding run step process_event process_new_event commit_event apply_event update_core_last_seq
    refresh_from_snapshot store_snapshot set_checkpoint is_event_applied count_applied is_applied
    validate_event_envelope decode_and_validate_event_payload validate_payload validate_market_state
    validate_snapshot validate_entries validate_entry commit_applied_event commit_in_tx apply_in_tx
    finish insert_or_ignore add64 int64 ◌+ℤ◌ insert
stored = refl

restarted : new_service in_memory left config ≡ ok again
unfolding new_service with_defaults get_checkpoint
restarted = refl

restart-resumes_example :
    (again.last_applied_seq ≡ (run in_memory two_states calls fresh).last_applied_seq)
    × (pos 0 ≤ℤ again.last_applied_seq)
restart-resumes_example =
    restart-resumes in_memory two_states empty_tables config fresh calls config again (omega arith)
      (omega arith, (omega arith, (tt, (omega arith, tt)))) started (rw stored restarted)

process_event-Processed_example :
    let r = process_event in_memory two_states suspension (pos 200) fresh in
    Processed in_memory two_states suspension (pos 200) fresh r.0 r.1
process_event-Processed_example =
    process_event-Processed in_memory two_states suspension (pos 200) fresh

refresh_from_snapshot-Refreshed_example :
    let r = refresh_from_snapshot in_memory (ok first_snapshot) (pos 100) fresh in
    Refreshed in_memory (pos 100) (ok first_snapshot) fresh r.0 r.1
refresh_from_snapshot-Refreshed_example =
    refresh_from_snapshot-Refreshed in_memory (pos 100) (ok first_snapshot) fresh

decode_and_validate_event_payload_iff_example :
    (decode_and_validate_event_payload two_states suspension ≡ ok suspended_market)
    ↔ ((ok suspended_market ≡ ok suspended_market) × IsPayloadOf suspension suspended_market)
decode_and_validate_event_payload_iff_example =
    decode_and_validate_event_payload_iff two_states suspension suspended_market

validate_snapshot_iff_example :
    ((m : Map String MarketState) × (validate_snapshot first_snapshot (pos 0) ≡ ok m)
      × ((k : String) → get m k ≡ get first_snapshot.markets k))
    ↔ IsAcceptable first_snapshot (pos 0)
unfolding get
validate_snapshot_iff_example = validate_snapshot_iff first_snapshot (pos 0) (refl, tt)

abbrev frames : List (Line × ℤ)
frames = (data_line (ok suspension), pos 200) ∷ []

abbrev end_of_file : Error
end_of_file = sentinel eof

abbrev behind : Service in_memory
behind = restored in_memory full_config empty_tables (pos 1)

consume_lines-CaughtUp_example :
    let r = consume_lines in_memory two_states frames end_of_file behind in
    CaughtUp in_memory two_states 2 (suspension ∷ []) behind end_of_file r.0 r.1
unfolding is_applied
consume_lines-CaughtUp_example =
    consume_lines-CaughtUp in_memory two_states in_memory_reliable 1 2 (suspension ∷ []) frames
      end_of_file behind (carries suspension (pos 200) at_end) (refl, refl) (omega arith)
      (
        (
          (λ h. cc h, omega arith, λ h. cc h, tt),
          suspended_market,
          refl,
          ((λ h. cc h, inr refl), refl, refl),
        ),
        tt,
      )
      (refl, tt, tt) refl

-- A round whose snapshot is refused, one that reads a snapshot and an event, and one at whose start
-- the context is done.
abbrev refused_round : Round tenths
refused_round = record {
  done = false;
  snapshot = response (pos 503) "later" (err eof_error);
  snapshot_ms = pos 50;
  stream = λ query. no_response eof_error;
  done_after = false;
  refresh = no_response eof_error;
  refresh_ms = pos 300;
  random = pos 5;
}

abbrev full_round : Round tenths
full_round = record refused_round {
  snapshot =
      response (pos 200) ""
        (ok (record { last_seq = first_snapshot.last_seq; markets = some first_snapshot.markets }));
  snapshot_ms = pos 100;
  stream = λ query. response (pos 200) "" (record {
    lines = (data_line (ok suspension), pos 200) ∷ [];
    timed_out = false;
    scan_error = none;
  });
}

abbrev rounds : List (Round tenths)
rounds = refused_round ∷ full_round ∷ record refused_round { done = true } ∷ []

start_stored : (start tenths in_memory two_states rounds fresh).1.store ≡ left
unfolding is consume_stream start start_round ensure_bootstrapped fetch_snapshot set_last_error
    format_int consume_lines wait_backoff next_reconnect_delay process_event process_new_event
    commit_event apply_event update_core_last_seq refresh_from_snapshot store_snapshot
    set_checkpoint is_event_applied count_applied is_applied validate_event_envelope
    decode_and_validate_event_payload validate_payload validate_market_state validate_snapshot
    validate_entries validate_entry commit_applied_event commit_in_tx apply_in_tx finish
    insert_or_ignore add64 int64 ◌+ℤ◌ insert
start_stored = refl

start-resumes_example :
    (again.last_applied_seq ≡ (start tenths in_memory two_states rounds fresh).1.last_applied_seq)
    × (pos 0 ≤ℤ again.last_applied_seq)
    × ((start tenths in_memory two_states rounds fresh).1.connected ≡ false)
start-resumes_example =
    start-resumes in_memory two_states tenths empty_tables config fresh rounds config again
      (omega arith)
      (
        (tt, tt, λ query. tt),
        ((omega arith, tt, λ query. (omega arith, tt)), ((tt, tt, λ query. tt), tt)),
      )
      started (rw start_stored restarted)
