-- ===== src/Query.antt =====
-- internal/application/query, with ListPaginated of the repository and the Redis TTLs.
pub mod Views
pub mod Cached
pub mod Cursor
pub mod Listing
pub mod Order
pub mod Pages
pub mod Own
