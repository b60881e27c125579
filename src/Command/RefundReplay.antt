-- ===== src/Command/RefundReplay.antt =====
-- RefundPaymentHandler.Handle (refund_payment.go), for requests that open no refund.
use payment_module.Common.{◌≡◌, arith, some, none, false, str_eq, ◌==◌}
use payment_module.Errors.{ok}
use payment_module.Domain.Types.{Payment, Refund}
use payment_module.Domain.Refunds.{find_reference}
use payment_module.Store.Save.{read_payment}
use payment_module.Store.Find
use payment_module.Store.Find.{select}
use payment_module.Command.World.{World, Env}
use payment_module.Command.Calls.{find_by_id}
use payment_module.Command.Refund.{
  RefundPaymentCommand, handle, check_owner, check_reference, open_refund, replay,
}

-- A request whose reference_id already names a refund of the payment changes nothing after the
-- payment was loaded, and contacts no gateway, whether it is replayed or refused.
pub replay_quiet :
    (env : Env) (cmd : RefundPaymentCommand) (w v : World) (p : Payment) (r : Refund)
    → find_by_id env cmd.payment_id w ≡ (ok p, v)
    → find_reference cmd.reference_id p.refunds ≡ some r
    → (handle env cmd w).1 ≡ v
unfolding handle check_owner check_reference open_refund replay
replay_quiet env cmd w v p r loaded used = ground (arith, loaded, used)

-- A caller who is not an administrator learns nothing about a payment of another service: the request
-- ends with the same error as in a world where the payment does not exist.
pub stranger_learns_nothing :
    (env : Env) (cmd : RefundPaymentCommand) (w v : World) (p : Payment) (x : World)
    → cmd.admin ≡ false
    → str_eq p.caller_service cmd.caller_service ≡ false
    → find_by_id env cmd.payment_id w ≡ (ok p, v)
    → (env.session x.tick).fault read_payment ≡ none
    → select (λ row. row.id == cmd.payment_id) (env.meanwhile x.tick x.db).payments ≡ none
    → (handle env cmd w).0 ≡ (handle env cmd x).0
unfolding handle check_owner check_reference open_refund replay find_by_id Find.find_by_id
stranger_learns_nothing env cmd w v p x member other loaded reads absent =
    ground (arith, loaded, reads, absent, member, other)
