-- ===== src/Command/ReconcilePasses.antt =====
-- RunOnce and Run of reconcile.go: passes end, whatever happens to a payment.
use payment_module.Ports.Gateway.{Gateway}
use payment_module.Command.World.{World}
use payment_module.Command.Succeeds.{Succeeds}
