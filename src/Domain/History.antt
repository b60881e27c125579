-- ===== src/Domain/History.antt =====
-- Payments as internal/domain/payment makes and changes them, over whole histories.
use mathlib.Core.Path.{subst}
use payment_module.Common.{◌≡◌, Option, String, arith, ◌<◌}
use payment_module.Common.Int.{pos_part}
use payment_module.Common.Int64.{Int64, half_modulus}
use payment_module.Errors.{Result, ok}
use payment_module.Domain.Aggregate.{new}
use payment_module.Domain.Types.{Payment, Refund, Uuid, Time, Money, CustomerInfo, new_money}
use payment_module.Domain.Method.{Method}
use payment_module.Domain.Invariant.{
  IsValid, Ensures, mark_pending-IsValid, mark_completed-IsValid, mark_failed-IsValid,
  mark_expired-IsValid, cancel-IsValid,
}
use payment_module.Domain.RefundsValid.{
  request_refund-IsValid, complete_refund-IsValid, fail_refund-IsValid,
}
use payment_module.Domain.Lifecycle.{
  Step, to_pending, to_completed, to_failed, to_expired, to_cancelled, refund_opens,
  refund_completes, refund_fails, Reach, here, next,
}
use payment_module.Json.{Payload}

Ensures-ok : {A : Type 0} (P : A → Type 0) {r : Result A} {a : A} → Ensures P r → r ≡ ok a → P a
Ensures-ok P h e = subst (Ensures P) e h

pub Step-IsValid : {p q : Payment} → Step p q → IsValid p → IsValid q
Step-IsValid {p} (to_pending now tx resp e) v =
    Ensures-ok IsValid (mark_pending-IsValid p v now tx resp) e
Step-IsValid {p} (to_completed now paid_at e) v =
    Ensures-ok IsValid (mark_completed-IsValid p v now paid_at) e
Step-IsValid {p} (to_failed now code message e) v =
    Ensures-ok IsValid (mark_failed-IsValid p v now code message) e
Step-IsValid {p} (to_expired now e) v = Ensures-ok IsValid (mark_expired-IsValid p v now) e
Step-IsValid {p} (to_cancelled now e) v = Ensures-ok IsValid (cancel-IsValid p v now) e
Step-IsValid {p} (refund_opens print now new_id ref amount reason by r fresh e) v =
    Ensures-ok (λ (t : Payment × Refund). IsValid t.0)
      (request_refund-IsValid print now new_id ref amount reason by p v fresh) e
Step-IsValid {p} (refund_completes show now id gateway_id e) v =
    Ensures-ok IsValid (complete_refund-IsValid show now id gateway_id p v) e
Step-IsValid {p} (refund_fails show now id reason e) v =
    Ensures-ok IsValid (fail_refund-IsValid show now id reason p v) e

-- Every payment that operations of the aggregate reach from a well-formed payment is well formed.
pub Reach-IsValid : {p q : Payment} → Reach p q → IsValid p → IsValid q
Reach-IsValid here v = v
Reach-IsValid (next r s) v = Step-IsValid s (Reach-IsValid r v)

-- A payment that `NewMoney` and `New` made, from an amount below 2^63, is well formed.
pub new-IsValid :
    (print : Int64 → String) (now : Time) (new_id : Uuid) (ref caller : String) (amount : Int64)
    (currency gateway : String) (method : Method) (customer : CustomerInfo) (description : String)
    (expired_at : Option Time) (metadata : Payload) {m : Money} {p : Payment}
    → pos_part amount < half_modulus
    → new_money print amount currency ≡ ok m
    → new now new_id ref caller m gateway method customer description expired_at metadata ≡ ok p
    → IsValid p
unfolding new_money new
new-IsValid print now new_id ref caller amount currency gateway method customer description
      expired_at metadata fits made e =
    ground arith
