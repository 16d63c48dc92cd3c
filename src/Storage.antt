-- ===== src/Storage.antt =====
-- internal/storage: the SQLite repository.
pub mod Types
pub mod Text
pub mod Table
pub mod Engine
pub mod Repository
pub mod Open
pub mod Query
pub mod Prune
pub mod Listing
