-- ===== src/Core/Service/Replicas.antt =====
-- internal/core/service.go: heartbeats and the status of replicas.
pub mod Listing
pub mod Heard
use novig_take_home.Base.{
  String, false, List, [], ◌∷◌, ◌==◌, if◌then◌else◌, string_eq, Option, none, some,
}
use novig_take_home.Base.Int.{ℤ, pos, ltb_ℤ, sub64}
use novig_take_home.Base.Map.{Map, get, insert}
use novig_take_home.Core.EventStore.{Sqlite}
use novig_take_home.Core.ReplicaHealth.{
  ReplicaHeartbeat, ReplicaHealthRecord, ReplicaHealthClass, unclassified, ReplicaStatus,
  ReplicasStatusResponse, classify_replica_health, same_class, sort_replica_statuses,
}
use novig_take_home.Core.Service.State.{Service, ServiceConfig, milliseconds}

abbrev pub clamp_zero : ℤ → ℤ
clamp_zero z = if ltb_ℤ z (pos 0) then pos 0 else z

-- The class of a record at a time.
unfoldable pub health_at : ServiceConfig → ℤ → ReplicaHealthRecord → ReplicaHealthClass
health_at cfg now_ms record' =
    classify_replica_health record'.connected (sub64 now_ms record'.last_seen_at_ms)
      (milliseconds cfg.replica_stale_after) (milliseconds cfg.replica_offline_after)

unfoldable pub lag_of : ℤ → ReplicaHealthRecord → ℤ
lag_of last_seq record' = clamp_zero (sub64 last_seq record'.last_applied_seq)

unfoldable pub status_of : ℤ → String → ReplicaHealthRecord → ReplicaStatus
unfolding lag_of
status_of last_seq replica_id r = record {
  replica_id = replica_id;
  health = r.health;
  connected = r.connected;
  last_applied_seq = r.last_applied_seq;
  reported_core_last_seq = r.core_last_seq;
  lag_seq = lag_of last_seq r;
  last_sync_at = r.last_sync_at;
  last_seen_at = r.last_seen_at_ms;
}

-- The loop of `ReplicaStatuses`.
unfoldable pub statuses_of : ℤ → Map String ReplicaHealthRecord → List ReplicaStatus
unfolding status_of
statuses_of last_seq [] = []
statuses_of last_seq ((replica_id, r) ∷ rest) =
    status_of last_seq replica_id r ∷ statuses_of last_seq rest

abbrev zero_record : ReplicaHealthRecord
zero_record = record {
  heartbeat = record {
    replica_id = "";
    connected = false;
    last_applied_seq = pos 0;
    core_last_seq = pos 0;
    last_sync_at = pos 0;
  };
  last_seen_at_ms = pos 0;
  health = unclassified;
}

abbrev pub or_zero : Option ReplicaHealthRecord → ReplicaHealthRecord
or_zero none = zero_record
or_zero (some r) = r

module _ (sql : Sqlite) where
  -- A class that has not changed is not written; the write is the same map then.
  unfoldable pub update_replica_health : String → ℤ → Service sql → Service sql
  unfolding health_at
  update_replica_health replica_id now_ms s = elim (get s.replicas replica_id) [
    | none ↦ s
    | some r ↦
        let next = health_at s.cfg now_ms r in
        if same_class r.health next
        then s
        else record s { replicas = insert replica_id (record r { health = next }) s.replicas }
  ]

  unfoldable pub refresh_each : Map String ReplicaHealthRecord → ℤ → Service sql → Service sql
  refresh_each [] now_ms s = s
  refresh_each ((replica_id, _) ∷ rest) now_ms s =
      refresh_each rest now_ms (update_replica_health replica_id now_ms s)

  unfoldable pub refresh_replica_health : ℤ → Service sql → Service sql
  unfolding refresh_each
  refresh_replica_health now_ms s = refresh_each s.replicas now_ms s

  unfoldable pub record_replica_heartbeat : ReplicaHeartbeat → ℤ → Service sql → Service sql
  unfolding update_replica_health
  record_replica_heartbeat input now_ms s =
      let heartbeat = record input {
        last_applied_seq = clamp_zero input.last_applied_seq;
        core_last_seq = clamp_zero input.core_last_seq;
      } in
      let r = record (or_zero (get s.replicas input.replica_id)) {
        heartbeat = heartbeat;
        last_seen_at_ms = now_ms;
      } in
      if input.replica_id == ""
      then s
      else update_replica_health input.replica_id now_ms
          (record s { replicas = insert input.replica_id r s.replicas })

  unfoldable pub replica_statuses : ℤ → Service sql → ReplicasStatusResponse × Service sql
  unfolding refresh_replica_health statuses_of
  replica_statuses now_ms s =
      let s' = refresh_replica_health now_ms s in
      (
        record {
          generated_at_ms = now_ms;
          core_last_seq = s'.last_seq;
          stale_after_ms = milliseconds s'.cfg.replica_stale_after;
          offline_after_ms = milliseconds s'.cfg.replica_offline_after;
          replicas = sort_replica_statuses (statuses_of s'.last_seq s'.replicas);
        },
        s',
      )
