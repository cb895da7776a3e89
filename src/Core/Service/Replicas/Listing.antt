-- ===== src/Core/Service/Replicas/Listing.antt =====
-- The listing of the replicas.
use novig_take_home.Base.Int.{ℤ}
use novig_take_home.Base.Order.{str_leb_total}
use novig_take_home.Base.Sort.{IsSortedBy, sort_by-Perm, sort_by-IsSortedBy}
use mathlib.Core.List.{Perm}
use novig_take_home.Core.EventStore.{Sqlite}
use novig_take_home.Core.ReplicaHealth.{sort_replica_statuses, by_replica_id}
use novig_take_home.Core.Service.State.{Service}
use novig_take_home.Core.Service.Replicas.{replica_statuses, refresh_replica_health, statuses_of}

-- The statuses are those of the records after their classes were refreshed, each as often as it is
-- held, in the order of their identifiers.
pub replica_statuses-sorted :
    (sql : Sqlite) (now_ms : ℤ) (s : Service sql)
    → let r = replica_statuses sql now_ms s in
      IsSortedBy by_replica_id r.0.replicas
      × Perm r.0.replicas (statuses_of r.1.last_seq r.1.replicas)
unfolding replica_statuses sort_replica_statuses
replica_statuses-sorted sql now_ms s =
    let s' = refresh_replica_health sql now_ms s in
    (
      sort_by-IsSortedBy by_replica_id (λ a b. str_leb_total a.replica_id b.replica_id)
          (statuses_of s'.last_seq s'.replicas),
      sort_by-Perm by_replica_id (statuses_of s'.last_seq s'.replicas),
    )
