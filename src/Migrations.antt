-- ===== src/Migrations.antt =====
-- backend/src/db/migrations: how a migration file is cut into statements.
pub mod Splitter
mod Tests
