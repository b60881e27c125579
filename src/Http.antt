-- ===== src/Http.antt =====
-- internal/adapter/inbound/http and its middleware, and internal/pkg/apikey.
pub mod Replies
pub mod Idempotency
pub mod Claims
pub mod Payments
pub mod Replay
pub mod Refunds
pub mod Reads
pub mod OwnListing
pub mod Admin
pub mod Keys
pub mod Auth
pub mod Tenants
