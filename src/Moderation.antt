-- ===== src/Moderation.antt =====
-- backend/src/modules/moderation: reports, their escalation, the actions of the moderators, and what
-- the guard of backend/src/common/guards/restriction.guard.ts makes of them.
pub mod Store
pub mod Service
pub mod Enforcement
pub mod Escalation
mod Tests
