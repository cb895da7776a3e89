-- ===== src/Replica/Service.antt =====
-- internal/replica/service.go. The proofs are in the modules below.
pub mod State
pub mod Process
pub mod Refresh
pub mod Stream
pub mod Lifetime
pub mod Connection
pub mod Heartbeat
pub mod Idle
pub mod Start
mod Tests
