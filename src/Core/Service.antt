-- ===== src/Core/Service.antt =====
-- internal/core/service.go. The service's mutex is held by each operation that changes state, so
-- each is one step here.
pub mod State
pub mod Signals
pub mod Emit
pub mod Emission
pub mod Replay
pub mod Evaluate
pub mod Consistency
pub mod Tick
pub mod History
pub mod Ticker
pub mod Lifetime
mod Tests
pub mod Replicas
pub mod Fixture
