-- ===== src/Core/ReplicaHealth/Classes.antt =====
-- The classes by age.
use novig_take_home.Base.{Bool, true, false, ◌≡◌, ◌↔◌, ◌⊎◌, arith}
use novig_take_home.Base.Int.{ℤ, pos, negsuc, ◌≤ℤ◌, ◌<ℤ◌}
use novig_take_home.Core.ReplicaHealth.{healthy, stale, offline, classify_replica_health}

abbrev pub from_zero : ℤ → ℤ
from_zero (pos n) = pos n
from_zero (negsuc n) = pos 0

-- With an offline limit that is no lower than the stale limit, whatever the signs of both, and a
-- negative age counted as zero: a replica is healthy exactly when it is connected and younger than
-- the stale limit, stale exactly when it is connected, has reached the stale limit and is younger
-- than the offline limit, and offline exactly when it is not connected or has reached the offline
-- limit.
pub classify_replica_health_iff :
    (connected : Bool) (age stale_after offline_after : ℤ)
    → stale_after ≤ℤ offline_after
    → let class = classify_replica_health connected age stale_after offline_after in
      let age = from_zero age in
      ((class ≡ healthy) ↔ ((connected ≡ true) × (age <ℤ stale_after)))
      × ((class ≡ stale) ↔ ((connected ≡ true) × (stale_after ≤ℤ age) × (age <ℤ offline_after)))
      × ((class ≡ offline) ↔ ((connected ≡ false) ⊎ (offline_after ≤ℤ age)))
unfolding classify_replica_health
classify_replica_health_iff connected age s o h = ground arith
