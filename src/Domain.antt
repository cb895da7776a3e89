-- ===== src/Domain.antt =====
-- internal/domain: the types of event.go, state.go and breaker.go, and the breaker. The proofs
-- about the breaker are in the modules below.
mod Types
pub mod Json
pub mod Equality
pub mod Breaker
pub use Types.*
