-- ===== src/Outbox.antt =====
-- The outbox: postgres/outbox_worker.go, postgres/db/outbox.sql.go and rabbitmq/event_publisher.go of
-- internal/adapter/outbound.
pub mod Publisher
pub mod Queries
pub mod Worker
pub mod Delivery
pub mod Retries
pub mod Passes
pub mod Routing
