-- ===== src/Db.antt =====
-- packages/db: the migration runner.
pub mod Migrations
mod Tests
