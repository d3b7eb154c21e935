-- ===== src/Cache.antt =====
-- backend/src/modules/shared/cache: the tagged cache over Valkey.
pub mod Valkey
pub mod Tagged
pub mod Generations
pub mod Readers
pub mod Coherence
pub mod Race
mod Tests
