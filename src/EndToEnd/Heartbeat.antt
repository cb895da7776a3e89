-- ===== src/EndToEnd/Heartbeat.antt =====
-- The replica's heartbeat at the core's handler: internal/replica/service.go and
-- internal/core/http.go with internal/core/service.go. The two types of its JSON have the same tags.
use novig_take_home.Base.{nonempty_test, ℕ, String, ◌≡◌, ◌≢◌, refl, none, string_eq}
use novig_take_home.Base.Int.{ℤ, pos, sub64}
use novig_take_home.Base.Errors.{Result, ok}
use mathlib.Core.List.{Mem}
use novig_take_home.Core.EventStore as Events
use novig_take_home.Core.Http.{Answer, method_post, post_heartbeat, handle, handle_heartbeat}
use novig_take_home.Core.ReplicaHealth.{ReplicaHeartbeat, ReplicaStatus, classify_replica_health}
use novig_take_home.Core.Service.State as Core
use novig_take_home.Core.Service.State.{milliseconds}
use novig_take_home.Core.Service.Replicas.{
  replica_statuses, clamp_zero, status_of, lag_of, health_at,
}
use novig_take_home.Core.Service.Replicas.Heard.{listed_of_heard}
use novig_take_home.Replica.Store.{Sqlite}
use novig_take_home.Replica.Service.State.{Service, status}
use novig_take_home.Replica.Service.Connection.{Reply, response}
use novig_take_home.Replica.Service.Heartbeat.{
  HeartbeatRequest, heartbeat_request, heartbeat_error, send_heartbeat,
}

-- Field by field, as the tags are.
abbrev pub as_input : HeartbeatRequest → ReplicaHeartbeat
as_input r = record {
  replica_id = r.replica_id;
  connected = r.connected;
  last_applied_seq = r.last_applied_seq;
  core_last_seq = r.core_last_seq;
  last_sync_at = r.last_sync_at;
}

-- An answer on the wire, whose body is read only after a failure.
abbrev pub on_wire : Answer → Reply {0} Unit
on_wire a = response (pos a.status) "" tt

module _ (events : Events.Sqlite) (decode : String → Result ReplicaHeartbeat) where
  -- What the core makes of a posted text.
  abbrev pub posted : String → ℤ → (ℕ → ℤ) → Core.Service events → Answer × Core.Service events
  posted payload seen_ms clock core =
      handle events (post_heartbeat method_post (decode payload)) seen_ms clock core

  abbrev pub network : Core.Service events → ℤ → (ℕ → ℤ) → String → Reply {0} Unit
  network core seen_ms clock payload = on_wire (posted payload seen_ms clock core).0

module _ (events : Events.Sqlite) (sql : Sqlite) where
  -- The status that the core should show of a replica.
  abbrev pub shown : Core.Service events → Service sql → ℤ → ℤ → ReplicaStatus
  shown core s seen_ms now_ms =
      let applied = clamp_zero s.last_applied_seq in
      record {
        replica_id = s.cfg.id;
        health =
            classify_replica_health s.connected (sub64 now_ms seen_ms)
              (milliseconds core.cfg.replica_stale_after)
              (milliseconds core.cfg.replica_offline_after);
        connected = s.connected;
        last_applied_seq = applied;
        reported_core_last_seq = clamp_zero s.core_last_seq;
        lag_seq = clamp_zero (sub64 core.last_seq applied);
        last_sync_at = s.last_sync_at_ms;
        last_seen_at = seen_ms;
      }

module _ (events : Events.Sqlite) (sql : Sqlite) (marshal : HeartbeatRequest → Result String)
    (decode : String → Result ReplicaHeartbeat) where
  -- A replica with an identifier, whose request is encoded, and decoded to the same fields, posts it
  -- to the core at some time: it gets no error; and the core's next listing, at whatever time, has a
  -- status with the replica's connection and time of synchronisation, its numbers with zero for
  -- negative ones, the lag behind the core's number, and the class by the age of the heartbeat.
  pub send_heartbeat-shown :
      (core : Core.Service events) (s : Service sql) (payload : String) (clock : ℕ → ℤ)
      (seen_ms now_ms : ℤ)
      → s.cfg.id ≢ ""
      → marshal (heartbeat_request sql marshal s) ≡ ok payload
      → decode payload ≡ ok (as_input (heartbeat_request sql marshal s))
      → let after = (posted events decode payload seen_ms clock core).1 in
        (send_heartbeat sql marshal (network events decode core seen_ms clock) s ≡ none)
        × Mem
            (shown events sql core s seen_ms now_ms)
            (replica_statuses events now_ms after).0.replicas
  unfolding handle handle_heartbeat heartbeat_request send_heartbeat heartbeat_error status
      status_of lag_of health_at
  send_heartbeat-shown core s payload clock seen_ms now_ms named encoded decoded =
      let input = as_input (heartbeat_request sql marshal s) in
      (
        rw (encoded, send_heartbeat, decoded, nonempty_test s.cfg.id named) refl,
        rw (decoded, nonempty_test s.cfg.id named)
            (listed_of_heard events input seen_ms now_ms core named),
      )
