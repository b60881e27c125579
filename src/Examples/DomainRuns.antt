-- ===== src/Examples/DomainRuns.antt =====
-- Runs of the aggregate.
use payment_module.Common.Int64.{sub}
use payment_module.Domain.Aggregate.{new}
use payment_module.Domain.Amounts.{confirmed, reserved}
use payment_module.Common.{◌≡◌, ◌⊎◌, refl, none, [], ◌∷◌, arith, ◌-◌}
use payment_module.Common.Int.{pos}
use payment_module.Domain.Types.{Payment, refund_requested, new_money}
use payment_module.Domain.Status.{RefundStatus}
use payment_module.Domain.Method.{Method}
use payment_module.Domain.Lifecycle.{Step, refund_opens, refund_completes, here, next}
use payment_module.Domain.Refunds.{
  refunded_amount, refundable_amount, request_refund, complete_refund, find_refund, complete_found,
  find_reference, pending_refund, sum_amounts,
}
use payment_module.Domain.Invariant.{IsValid, amounts_exact}
use payment_module.Domain.History.{Reach-IsValid, new-IsValid}
use payment_module.Domain.Closed.{Step-final}
use payment_module.Domain.Changes.{Step-IsChange, IsChange}
use payment_module.Examples.Payments.{
  show, print, customer, fresh, paid, waiting, refunded, some_refund,
}

pub paid-IsValid : IsValid paid
unfolding find_refund find_reference
paid-IsValid = ground arith

pub waiting-IsValid : IsValid waiting
unfolding find_refund find_reference
waiting-IsValid = ground arith

pub refunded-IsValid : IsValid refunded
unfolding find_refund find_reference
refunded-IsValid = ground arith

-- `paid` after its refund was requested.
abbrev opened : Payment
opened = record waiting { events = refund_requested 1 7 (pos 40) (pos 30) ∷ [] }

abbrev opening : Step paid opened
unfolding request_refund pending_refund find_refund find_reference refundable_amount sum_amounts sub
opening =
    refund_opens print (pos 30) 7 "refund-1" (pos 40) "late" "shop"
      (some_refund RefundStatus.pending (pos 40)) refl refl

Reach-IsValid_example : IsValid opened
Reach-IsValid_example = Reach-IsValid (next here opening) paid-IsValid

abbrev confirming : Step refunded refunded
unfolding complete_refund complete_found find_refund
confirming = refund_completes show (pos 50) 7 "g-1" refl

Step-final_example : refunded ≡ refunded
Step-final_example = Step-final confirming refunded-IsValid refl

Step-IsChange_example : (opened ≡ paid) ⊎ IsChange paid opened
Step-IsChange_example = Step-IsChange opening

new-IsValid_example : IsValid fresh
unfolding new_money new
new-IsValid_example =
    new-IsValid print (pos 10) 1 "order-1" "shop" (pos 100) "IDR" "midtrans" Method.card customer ""
      none none (omega arith) refl refl

amounts_exact_example :
    (refunded_amount refunded ≡ pos (confirmed refunded.refunds))
    × (refundable_amount refunded ≡ pos (100 - reserved refunded.refunds))
amounts_exact_example = amounts_exact refunded refunded-IsValid
