-- ===== src/Replica/Service/Heartbeat.antt =====
-- internal/replica/service.go: `sendHeartbeat` and `reportHeartbeats`. The HTTP client and
-- encoding/json are arguments.
use novig_take_home.Base.{
  String, Bool, ◌||◌, List, [], ◌∷◌, ◌++◌, Option, none, some, if◌then◌else◌,
}
use novig_take_home.Base.Int.{ℤ, pos, ltb_ℤ}
use novig_take_home.Base.Errors.{Error, errorf, is, canceled, int, text, Result, ok, err}
use novig_take_home.Replica.Store.{Sqlite}
use novig_take_home.Replica.Service.State.{Service, status}
use novig_take_home.Replica.Service.Connection.{Reply, no_response, response}

pub record HeartbeatRequest : Type 0 where
  pub replica_id : String
  pub connected : Bool
  pub last_applied_seq : ℤ
  pub core_last_seq : ℤ
  pub last_sync_at : ℤ

-- The body, trimmed, is read where the status is not of the class 2xx.
unfoldable pub heartbeat_error : Reply {0} Unit → Option Error
heartbeat_error (no_response e) = some e
heartbeat_error (response status body _) =
    if ltb_ℤ status (pos 200) || ltb_ℤ (pos 299) status
    then some (errorf "heartbeat status %d: %s" (int status ∷ text body ∷ []))
    else none

-- `none` is a nil error; of an error, what is logged of it.
unfoldable pub logged : Option Error → List Error
logged none = []
logged (some e) = if is e canceled then [] else e ∷ []

module _ (sql : Sqlite) (marshal : HeartbeatRequest → Result String) where
  unfoldable pub heartbeat_request : Service sql → HeartbeatRequest
  unfolding status
  heartbeat_request s =
      let now = status sql s in
      record {
        replica_id = s.cfg.id;
        connected = now.connected;
        last_applied_seq = now.last_applied_seq;
        core_last_seq = now.core_last_seq;
        last_sync_at = now.last_sync_at;
      }

  -- The network answers to the text of a request.
  unfoldable pub send_heartbeat : (String → Reply {0} Unit) → Service sql → Option Error
  unfolding heartbeat_request heartbeat_error
  send_heartbeat network s = elim (marshal (heartbeat_request s)) [
    | err e ↦ some e
    | ok payload ↦ heartbeat_error (network payload)
  ]

  -- What the loop receives: a tick, with the network and the state then; or the context's end.
  pub data Turn : Type 0 where
    done : Turn
    tick : (String → Reply {0} Unit) → Service sql → Turn

  -- The errors that are logged by the return, or by the last turn.
  unfoldable pub report_loop : List Turn → List Error
  unfolding send_heartbeat logged
  report_loop [] = []
  report_loop (done ∷ turns) = []
  report_loop (tick network s ∷ turns) = logged (send_heartbeat network s) ++ report_loop turns

  unfoldable pub report_heartbeats :
      (String → Reply {0} Unit) → Service sql → List Turn → List Error
  unfolding report_loop
  report_heartbeats network s turns = logged (send_heartbeat network s) ++ report_loop turns
