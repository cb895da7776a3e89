-- ===== src/Core/ReplicaHealth.antt =====
-- internal/core/replica_health.go: the health classes of replicas.
pub mod Classes
mod Tests
use novig_take_home.Base.Order.{str_leb}
use novig_take_home.Base.Sort.{sort_by}
use Prim.Native.Nat.{Ordering}
use novig_take_home.Base.{
  String, Bool, true, false, ◌||◌, not, List, [], ◌∷◌, Option, none, some, if◌then◌else◌,
}
use novig_take_home.Base.Int.{ℤ, pos, leb_ℤ, ltb_ℤ}

-- `unclassified` is the empty string, the class of a replica that was never classified.
pub data ReplicaHealthClass : Type 0 where
  unclassified healthy stale offline : ReplicaHealthClass

abbrev pub same_class : ReplicaHealthClass → ReplicaHealthClass → Bool
same_class unclassified unclassified = true
same_class healthy healthy = true
same_class stale stale = true
same_class offline offline = true
same_class _ _ = false

pub record ReplicaHeartbeat : Type 0 where
  pub replica_id : String
  pub connected : Bool
  pub last_applied_seq : ℤ
  pub core_last_seq : ℤ
  pub last_sync_at : ℤ

pub record ReplicaStatus : Type 0 where
  pub replica_id : String
  pub health : ReplicaHealthClass
  pub connected : Bool
  pub last_applied_seq : ℤ
  pub reported_core_last_seq : ℤ
  pub lag_seq : ℤ
  pub last_sync_at : ℤ
  pub last_seen_at : ℤ

pub record ReplicasStatusResponse : Type 0 where
  pub generated_at_ms : ℤ
  pub core_last_seq : ℤ
  pub stale_after_ms : ℤ
  pub offline_after_ms : ℤ
  pub replicas : List ReplicaStatus

pub record ReplicaHealthRecord : Type 0 where
  pub heartbeat : ReplicaHeartbeat
  pub open heartbeat use *
  pub last_seen_at_ms : ℤ
  pub health : ReplicaHealthClass

unfoldable pub classify_replica_health : Bool → ℤ → ℤ → ℤ → ReplicaHealthClass
classify_replica_health connected age_ms stale_after_ms offline_after_ms =
    if not connected
    then offline
    else (let age_ms = if ltb_ℤ age_ms (pos 0) then pos 0 else age_ms in
        if leb_ℤ offline_after_ms age_ms
        then offline
        else if leb_ℤ stale_after_ms age_ms
        then stale
        else healthy)

-- The order of `sort.Slice` is determined where the identifiers differ, as the keys of a map do.
abbrev pub by_replica_id : ReplicaStatus → ReplicaStatus → Bool
by_replica_id a b = str_leb a.replica_id b.replica_id

unfoldable pub sort_replica_statuses : List ReplicaStatus → List ReplicaStatus
sort_replica_statuses statuses = sort_by by_replica_id statuses
