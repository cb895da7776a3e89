-- ===== src/Core.antt =====
-- internal/core
pub mod EventStore
pub mod Hub
pub mod ReplicaHealth
pub mod Service
pub mod Stream
pub mod Http
pub mod Fixture
