-- ===== src/Domain.antt =====
-- The payment aggregate: internal/domain/payment.
pub mod Status
pub mod Method
pub mod Types
pub mod Aggregate
pub mod Refunds
pub mod Amounts
pub mod Keys
pub mod Invariant
pub mod RefundsValid
pub mod Lifecycle
pub mod History
pub mod Outcomes
pub mod Closed
pub mod Changes
