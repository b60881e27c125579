-- ===== src/Expiry.antt =====
-- The expiry job: internal/adapter/outbound/postgres/expiry_job.go.
pub mod Job
pub mod Pass
