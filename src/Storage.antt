-- ===== src/Storage.antt =====
-- internal/storage: the SQLite tables as lists of rows, and the statements of each DAO.
pub mod Kv
pub mod KvStore
pub mod Proxies
pub mod Sessions
pub mod Admin
pub mod Migrate
pub mod Open
