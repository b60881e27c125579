-- ===== src/Store.antt =====
-- The database: internal/adapter/outbound/postgres.
pub mod Rows
pub mod Queries
pub mod Save
pub mod Find
pub mod Locking
pub mod Journal
pub mod RoundTrip
pub mod Attempts
pub mod Numbering
