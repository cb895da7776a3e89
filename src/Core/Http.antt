-- ===== src/Core/Http.antt =====
-- internal/core/http.go: the handlers other than the stream's, and internal/shared/httpjson.go. The
-- mux and encoding/json are left out: a handler takes what they make of the request. A handler
-- returns the status and the body before it is encoded.
pub mod Spike
pub mod Answers
mod Tests
use novig_take_home.Base.{
  ℕ, zero, suc, String, Bool, true, false, Option, none, some, if◌then◌else◌, ◌==◌, string_eq,
}
use novig_take_home.Base.Int.{ℤ, pos}
use novig_take_home.Base.Errors.{Error, Result, ok, err}
use novig_take_home.Base.Map.{get}
use novig_take_home.Domain.{MarketState, SnapshotResponse, SignalInput, status_unset, reason_none}
use novig_take_home.Core.EventStore.{Sqlite}
use novig_take_home.Core.ReplicaHealth.{ReplicaHeartbeat, ReplicasStatusResponse}
use novig_take_home.Core.Service.State.{Service}
use novig_take_home.Core.Service.Signals.{ingest_signal, clear_signals, snapshot}
use novig_take_home.Core.Service.Replicas.{record_replica_heartbeat, replica_statuses}

pub data Method : Type 0 where
  method_get method_post : Method
  other_method : String → Method

pub data Body : Type 0 where
  error_body : String → Body
  snapshot_body : SnapshotResponse → Body
  statuses_body : ReplicasStatusResponse → Body
  accepted : Body
  accepted_replica : String → Body
  scenario_body : String → String → MarketState → ℤ → Body
  healthy : Body

pub record Answer : Type 0 where
  pub status : ℕ
  pub body : Body

-- `WriteJSON` and `WriteError`.
abbrev pub write_json : ℕ → Body → Answer
write_json status body = record { status = status; body = body }

abbrev pub write_error : ℕ → String → Answer
write_error status msg = write_json status (error_body msg)

-- The zero value, which a missing key of a map reads as.
abbrev zero_market : MarketState
zero_market = record {
  market_id = "";
  status = status_unset;
  bet_count_30s = pos 0;
  stake_sum_30s_cents = pos 0;
  liability_delta_30s_cents = pos 0;
  cooldown_until_unix_ms = pos 0;
  last_reason = reason_none;
  last_transition_unix_ms = pos 0;
}

abbrev state_or_zero : Option MarketState → MarketState
state_or_zero none = zero_market
state_or_zero (some m) = m

abbrev pub spike_signal : String → ℤ → SignalInput
spike_signal market_id now_ms = record {
  market_id = market_id;
  bet_count = pos 6;
  stake_cents = pos 15_000;
  liability_delta_cents = pos 100_000;
  ts_unix_ms = now_ms;
}

-- A request to one of the handlers, with what encoding/json makes of its body. A scenario has its
-- name, which is the rest of the path, and the market of the query.
pub data Request : Type 0 where
  get_snapshot : Request
  get_statuses : Method → Request
  post_event : Method → Result SignalInput → Request
  post_heartbeat : Method → Result ReplicaHeartbeat → Request
  post_scenario : Method → String → String → Request
  get_health : Request

module _ (sql : Sqlite) where
  -- The rounds that are left; the service reads the clock in each.
  unfoldable pub spike_loop : ℕ → String → ℤ → (ℕ → ℤ) → Service sql → Service sql
  spike_loop zero market_id now_ms clock s = s
  spike_loop (suc i) market_id now_ms clock s =
      spike_loop i market_id now_ms clock
        (ingest_signal sql (spike_signal market_id now_ms) (clock i) s)

  unfoldable pub run_spike_scenario : String → ℤ → (ℕ → ℤ) → Service sql → Service sql
  unfolding spike_loop
  run_spike_scenario market_id now_ms clock s = spike_loop 24 market_id now_ms clock s

  unfoldable pub scenario_answer : String → String → Service sql → Answer × Service sql
  scenario_answer name market_id s =
      let snap = snapshot sql s in
      (
        write_json 200 (
            scenario_body name market_id (state_or_zero (get snap.markets market_id))
              snap.last_seq),
        s,
      )

  unfoldable pub run_scenario : String → String → ℤ → (ℕ → ℤ) → Service sql → Answer × Service sql
  unfolding run_spike_scenario scenario_answer
  run_scenario name market_id now_ms clock s =
      if name == "spike"
      then scenario_answer name market_id (run_spike_scenario market_id now_ms clock s)
      else if name == "normalize"
      then scenario_answer name market_id (clear_signals sql market_id now_ms s)
      else (write_error 404 "unknown scenario", s)

  unfoldable pub handle_heartbeat : Result ReplicaHeartbeat → ℤ → Service sql → Answer × Service sql
  handle_heartbeat (err e) now_ms s = (write_error 400 "invalid json", s)
  handle_heartbeat (ok input) now_ms s =
      if input.replica_id == "" then (write_error 400 "replica_id is required", s) else (
        write_json 202 (accepted_replica input.replica_id),
        record_replica_heartbeat sql input now_ms s,
      )

  unfoldable pub handle_event : Result SignalInput → ℤ → Service sql → Answer × Service sql
  handle_event (err e) now_ms s = (write_error 400 "invalid json", s)
  handle_event (ok input) now_ms s = (write_json 202 accepted, ingest_signal sql input now_ms s)

  unfoldable pub handle_statuses : ℤ → Service sql → Answer × Service sql
  handle_statuses now_ms s =
      let (statuses, s') = replica_statuses sql now_ms s in
      (write_json 200 (statuses_body statuses), s')

  abbrev pub not_allowed : Service sql → Answer × Service sql
  not_allowed s = (write_error 405 "method not allowed", s)

  -- `now_ms` is the first reading of the clock, and `clock` has those of the scenario's loop.
  unfoldable pub handle : Request → ℤ → (ℕ → ℤ) → Service sql → Answer × Service sql
  unfolding run_scenario handle_heartbeat handle_event handle_statuses
  handle get_snapshot now_ms clock s = (write_json 200 (snapshot_body (snapshot sql s)), s)
  handle get_health now_ms clock s = (write_json 200 healthy, s)
  handle (get_statuses method_get) now_ms clock s = handle_statuses now_ms s
  handle (get_statuses _) now_ms clock s = not_allowed s
  handle (post_event method_post body) now_ms clock s = handle_event body now_ms s
  handle (post_event _ body) now_ms clock s = not_allowed s
  handle (post_heartbeat method_post body) now_ms clock s = handle_heartbeat body now_ms s
  handle (post_heartbeat _ body) now_ms clock s = not_allowed s
  handle (post_scenario method_post name market_id) now_ms clock s =
      run_scenario name (if market_id == "" then s.cfg.default_market_id else market_id) now_ms
        clock s
  handle (post_scenario _ name market_id) now_ms clock s = not_allowed s
