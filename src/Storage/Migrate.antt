-- ===== src/Storage/Migrate.antt =====
-- The migrations of internal/storage/store.go. What a script of SQL does to the database is an
-- argument; a transaction that is rolled back, or whose commit fails, leaves the database as it was.
pub mod Load
pub mod Sorted
pub mod Apply
pub mod Steps
pub mod Prefix
pub mod Again
pub mod Examples
