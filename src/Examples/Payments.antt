-- ===== src/Examples/Payments.antt =====
-- A payment of 100 with a card, in the states that the examples use.
use payment_module.Common.{String, ◌==◌, Option, none, some, [], ◌∷◌, str_eq, if◌then◌else◌}
use payment_module.Common.Int.{pos}
use payment_module.Common.Int64.{Int64}
use payment_module.Domain.Types.{Payment, Refund, CustomerInfo, Uuid, payment_initiated}
use payment_module.Domain.Method.{Method}
use payment_module.Domain.Status.{Status, RefundStatus}

abbrev pub show : Uuid → String
show id = if id == 7 then "seven" else "other"

abbrev pub parse : String → Option Uuid
parse s = if str_eq s "seven" then some 7 else none

abbrev pub print : Int64 → String
print n = "amount"

abbrev pub customer : CustomerInfo
customer = record { external_id = "c-1"; name = "Ani"; email = "ani@shop.id"; phone = "" }

abbrev pub fresh : Payment
fresh = record {
  id = 1;
  reference_id = "order-1";
  caller_service = "shop";
  gateway_type = "midtrans";
  gateway_transaction_id = "";
  status = Status.initiated;
  amount = record { amount = pos 100; currency = "IDR" };
  payment_method_type = Method.card;
  customer_info = customer;
  metadata = none;
  gateway_request_payload = none;
  gateway_response_payload = none;
  description = "";
  expired_at = none;
  paid_at = none;
  created_at = pos 10;
  updated_at = pos 10;
  deleted_at = none;
  refunds = [];
  version = 0;
  events = payment_initiated 1 (pos 10) ∷ [];
}

abbrev pub paid : Payment
paid = record fresh {
  gateway_transaction_id = "tx-1";
  status = Status.completed;
  paid_at = some (pos 20);
  version = 2;
  events = [];
}

abbrev pub some_refund : RefundStatus → Int64 → Refund
some_refund status amount = record {
  id = 7;
  payment_id = 1;
  reference_id = "refund-1";
  amount = amount;
  reason = "late";
  status = status;
  gateway_refund_id = "";
  failure_reason = "";
  requested_by = "shop";
  created_at = pos 30;
  updated_at = pos 30;
  completed_at = none;
}

-- 40 of the 100 wait for the gateway's answer.
abbrev pub waiting : Payment
waiting = record paid {
  refunds = some_refund RefundStatus.pending (pos 40) ∷ [];
  updated_at = pos 30;
}

abbrev pub refunded : Payment
refunded = record paid {
  status = Status.refunded;
  refunds = some_refund RefundStatus.succeeded (pos 100) ∷ [];
}

abbrev pub cancelled : Payment
cancelled = record fresh {
  gateway_transaction_id = "tx-1";
  status = Status.cancelled;
  version = 2;
  events = [];
}
