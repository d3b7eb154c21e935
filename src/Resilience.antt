-- ===== src/Resilience.antt =====
-- The resilience services of the backend (backend/src/common/resilience).
pub mod Breaker
pub mod Retry
mod Tests
