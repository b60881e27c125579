-- ===== src/Examples/Gateways.antt =====
-- A gateway that answers, the surroundings of a run, and the commands and payments of the runs.
use payment_module.Command.Cancel.{CancelPaymentCommand}
use payment_module.Command.Reconcile.{ReconcileConfig}
use payment_module.Common.{some, none, true, false, [], ◌∷◌, map}
use payment_module.Common.Int.{pos}
use payment_module.Errors.{ok, Error, plain}
use payment_module.Domain.Types.{Payment, refund_completed, payment_cancelled}
use payment_module.Ports.Gateway.{
  Gateway, GatewayResponse, TransactionState, TransactionStatus, NextAction, NextActionType,
  WebhookNotification,
}
use payment_module.Store.Rows.{to_row, to_refund_params}
use payment_module.Command.World.{World, Env}
use payment_module.Command.Create.{CreatePaymentCommand, CreatePaymentResult}
use payment_module.Command.Refund.{RefundPaymentCommand}
use payment_module.Examples.Payments.{fresh, waiting, some_refund, show, parse, print, paid}
use payment_module.Examples.StoreRuns.{calm}
use payment_module.Domain.Status.{Status, RefundStatus}

abbrev pub nothing_to_do : NextAction
nothing_to_do = record {
  type = NextActionType.no_action;
  va_number = "";
  bank = "";
  qr_string = "";
  qr_image_url = "";
  redirect_url = "";
  expires_at = none;
}

abbrev pub charged_at_once : GatewayResponse
charged_at_once = record {
  gateway_transaction_id = "tx-1";
  status = TransactionStatus.settled;
  next_action = nothing_to_do;
  raw_response = none;
}

abbrev pub known : TransactionState
known = record {
  found = true;
  gateway_transaction_id = "tx-1";
  status = TransactionStatus.settled;
  gateway_status = "settlement";
  refunds = [];
  raw_response = none;
}

abbrev pub notice : WebhookNotification
notice = record {
  payment_id = "other";
  gateway_transaction_id = "tx-1";
  status = TransactionStatus.settled;
  gateway_status = "settlement";
  refunds = [];
}

-- The gateway confirms refund 7.
abbrev pub refund_notice : WebhookNotification
refund_notice = record notice {
  refunds = record { refund_key = "seven"; gateway_refund_id = "g-7"; amount = pos 40 } ∷ [];
}

abbrev pub gateway : Gateway
gateway = record {
  capability = λ m. record { charge = true; refund = true; partial_refund = true };
  create_transaction = λ t req. ok charged_at_once;
  get_transaction = λ t ref. ok known;
  cancel_transaction = λ t tx. none;
  create_refund = λ t req. ok (record {
    accepted = true;
    gateway_refund_id = "g-7";
    decline_reason = "";
    raw_response = none;
  });
  parse_webhook = λ payload headers. ok notice;
}

abbrev pub env : Env
env = record {
  clock = λ t. pos t;
  new_uuid = λ t. t;
  session = λ t. calm;
  meanwhile = λ t db. db;
  cache_reaches = λ t. (true, true);
  recorder = none;
  factory = λ name. ok gateway;
  show = show;
  parse = parse;
  print = print;
}

-- A world whose tables hold the payment `p`.
abbrev pub world_of : Payment → World
world_of p = record {
  db = record {
    payments = record (to_row calm.column_time p) { version = p.version } ∷ [];
    refunds = map (to_refund_params calm.column_time) p.refunds;
    events = [];
    outbox = [];
  };
  cache = [];
  attempts = [];
  sent = [];
  log = [];
  tick = 0;
}

abbrev pub nowhere : World
nowhere = record (world_of paid) {
  db = record { payments = []; refunds = []; events = []; outbox = [] };
}

abbrev pub creation : CreatePaymentCommand
creation = record {
  reference_id = "order-1";
  caller_service = "shop";
  amount = pos 100;
  currency = "IDR";
  gateway_type = "midtrans";
  payment_method_type = "CARD";
  bank_code = "";
  card_token = "token";
  return_url = "";
  customer_name = "Ani";
  customer_email = "";
  customer_phone = "";
  customer_external_id = "";
  description = "";
  expired_at = none;
  metadata = none;
}

abbrev pub refund_command : RefundPaymentCommand
refund_command = record {
  payment_id = 1;
  reference_id = "refund-1";
  amount = pos 40;
  reason = "late";
  caller_service = "shop";
  admin = false;
}

abbrev pub charge_result : CreatePaymentResult
charge_result = record {
  payment = record paid { paid_at = some (pos 2); updated_at = pos 3; version = 1 };
  next_action = nothing_to_do;
}

abbrev pub confirmed : Payment
confirmed = record waiting {
  status = Status.partially_refunded;
  refunds =
      record (some_refund RefundStatus.succeeded (pos 40)) {
        gateway_refund_id = "g-7";
        updated_at = pos 0;
        completed_at = some (pos 0);
      }
      ∷ [];
  updated_at = pos 0;
  events = refund_completed 1 7 (pos 40) (pos 40) Status.partially_refunded (pos 0) ∷ [];
}

abbrev pub config : ReconcileConfig
config = record {
  charge_grace = pos 1;
  refund_grace = pos 1;
  refund_retry_after = pos 5;
  refund_give_up_after = pos 90;
  batch_size = 10;
}

abbrev pub refused_charge : Error
refused_charge = plain "connection refused"

abbrev pub strange_command : RefundPaymentCommand
strange_command = record refund_command { caller_service = "stranger" }

-- A payment that waits for its customer.
abbrev pub awaited : Payment
awaited = record fresh {
  gateway_transaction_id = "tx-1";
  status = Status.pending;
  version = 1;
  events = [];
}

abbrev pub given_up : Payment
given_up = record awaited {
  status = Status.cancelled;
  updated_at = pos 1;
  events = payment_cancelled 1 (pos 1) ∷ [];
}

abbrev pub cancel_command : CancelPaymentCommand
cancel_command = record { payment_id = 1; caller_service = "shop" }
