-- ===== src/Replica.antt =====
-- internal/replica
pub mod Backoff
pub mod Store
pub mod Validate
pub mod Service
pub mod Http
pub mod Fixture
