-- ===== src/Command.antt =====
-- The command handlers: internal/application/command.
pub mod World
pub mod Calls
pub mod Create
pub mod Refund
pub mod Cancel
pub mod Callback
pub mod Reconcile
pub mod ReconcileRefunds
pub mod Frame
pub mod Sends
pub mod CreateSafe
pub mod RefundSafe
pub mod Yields
pub mod CallbackSteps
pub mod CallbackClosed
pub mod CallbackQuiet
pub mod RefundReplay
pub mod CreateOutcome
pub mod ReconcileSteps
pub mod Succeeds
pub mod RetrySteps
pub mod CreateErrors
pub mod CancelSteps
pub mod Locked
pub mod LockedPasses
pub mod ReconcilePasses
