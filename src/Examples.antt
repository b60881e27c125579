-- ===== src/Examples.antt =====
-- Concrete payments, tables and gateways, and the theorems at work on them.
pub mod Payments
pub mod DomainRuns
pub mod StoreRuns
pub mod Gateways
pub mod CommandRuns
pub mod Midtrans
pub mod MidtransRuns
pub mod OutboxRuns
pub mod HttpRuns
pub mod QueryRuns
