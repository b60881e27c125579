-- ===== src/Midtrans.antt =====
-- internal/adapter/outbound/gateway: the Midtrans adapter and the factory of gateways.
pub mod Host
pub mod Status
pub mod Webhook
pub mod Transport
pub mod Calls
pub mod Charge
pub mod NextStep
pub mod Adapter
pub mod Replies
pub mod Signed
pub mod RefundOutcomes
pub mod StatusOutcomes
pub mod Forged
pub mod ChargeOutcomes
pub mod ChargeBody
