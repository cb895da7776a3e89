-- ===== src/Core/ReplicaHealth/Tests.antt =====
-- The classes at the default limits.
use novig_take_home.Base.{◌≡◌, ◌↔◌, ◌⊎◌, true, false, arith}
use novig_take_home.Base.Int.{pos, ◌≤ℤ◌, ◌<ℤ◌}
use novig_take_home.Core.ReplicaHealth.{classify_replica_health, healthy, stale, offline}
use novig_take_home.Core.ReplicaHealth.Classes.{classify_replica_health_iff}

classify_replica_health_iff_example :
    let class = classify_replica_health true (pos 7_000) (pos 5_000) (pos 15_000) in
    ((class ≡ healthy) ↔ ((◌≡◌ true true) × (pos 7_000 <ℤ pos 5_000)))
    × ((class ≡ stale) ↔ ((◌≡◌ true true) × (pos 5_000 ≤ℤ pos 7_000) × (pos 7_000 <ℤ pos 15_000)))
    × ((class ≡ offline) ↔ ((◌≡◌ true false) ⊎ (pos 15_000 ≤ℤ pos 7_000)))
classify_replica_health_iff_example =
    classify_replica_health_iff true (pos 7_000) (pos 5_000) (pos 15_000) (omega arith)
