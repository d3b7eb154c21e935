-- ===== src/Access.antt =====
-- Who may call a route: the roles of packages/shared-types, the permissions and the guards of
-- backend/src/common, and the restrictions of backend/src/modules/moderation.
pub mod Roles
pub mod Permissions
pub mod Guards
pub mod Restrictions
mod Tests
