-- ===== src/Domain/Aggregate.antt =====
-- internal/domain/payment/aggregate.go. A method that mutates the *Payment returns the new one. Each
-- checks its guard before it writes, so after an error the payment is as it was. The clock's
-- reading `now` and the new UUID are arguments.
use payment_module.Common.{
  String, ◌<>◌, not, ◌&&◌, Option, none, some, List, [], ◌∷◌, ◌++◌, is_empty, if◌then◌else◌,
}
use payment_module.Errors.{Result, ok, err, invalid_input, invalid_state}
use payment_module.Json.{Payload}
use payment_module.Domain.Status.{
  Status, status_text, is_terminal, is_initiated, is_pending, is_processing,
}
use payment_module.Domain.Method.{Method, method_text, is_known}
use payment_module.Domain.Types.{
  Time, Uuid, Money, CustomerInfo, Payment, DomainEvent, payment_initiated, payment_pending,
  payment_completed, payment_failed, payment_cancelled, payment_expired,
}

abbrev pub raise : DomainEvent → Payment → Payment
raise e p = record p { events = p.events ++ e ∷ [] }

module _ (now : Time) (new_id : Uuid) (reference_id caller_service : String) (amount : Money)
    (gateway_type : String) (method : Method) (customer : CustomerInfo) (description : String)
    (expired_at : Option Time) (metadata : Payload) where
  initial : Payment
  initial = record {
    id = new_id;
    reference_id = reference_id;
    caller_service = caller_service;
    gateway_type = gateway_type;
    gateway_transaction_id = "";
    status = Status.initiated;
    amount = amount;
    payment_method_type = method;
    customer_info = customer;
    metadata = metadata;
    gateway_request_payload = none;
    gateway_response_payload = none;
    description = description;
    expired_at = expired_at;
    paid_at = none;
    created_at = now;
    updated_at = now;
    deleted_at = none;
    refunds = [];
    version = 0;
    events = [];
  }

  unfoldable pub new : Result Payment
  unfolding initial
  new =
      if is_empty reference_id
      then err (invalid_input "reference_id is required")
      else if is_empty caller_service
      then err (invalid_input "caller_service is required")
      else if not (is_known method)
      then err (invalid_input ("unsupported payment_method_type: " <> method_text method))
      else ok (raise (payment_initiated new_id now) initial)

unfoldable pub mark_pending : Time → String → Payload → Payment → Result Payment
mark_pending now gateway_tx_id gateway_resp p =
    if not (is_initiated p.status)
    then err
        (invalid_state ("can only mark PENDING from INITIATED, current: " <> status_text p.status))
    else ok (
        raise (payment_pending p.id gateway_tx_id now) (record p {
          gateway_transaction_id = gateway_tx_id;
          gateway_response_payload = gateway_resp;
          status = Status.pending;
          updated_at = now;
        }))

unfoldable pub mark_completed : Time → Time → Payment → Result Payment
mark_completed now paid_at p =
    if not (is_pending p.status) && not (is_processing p.status)
    then err (invalid_state ("cannot complete from: " <> status_text p.status))
    else ok (
        raise (payment_completed p.id paid_at now)
          (record p { status = Status.completed; paid_at = some paid_at; updated_at = now }))

unfoldable pub mark_failed : Time → String → String → Payment → Result Payment
mark_failed now error_code error_message p =
    if is_terminal p.status
    then err (invalid_state ("cannot fail a payment that is already " <> status_text p.status))
    else ok (
        raise (payment_failed p.id error_code error_message now)
          (record p { status = Status.failed; updated_at = now }))

unfoldable pub mark_expired : Time → Payment → Result Payment
mark_expired now p =
    if not (is_pending p.status) && not (is_initiated p.status)
    then err (invalid_state ("cannot expire from: " <> status_text p.status))
    else ok
        (raise (payment_expired p.id now) (record p { status = Status.expired; updated_at = now }))

unfoldable pub cancel : Time → Payment → Result Payment
cancel now p =
    if not (is_pending p.status) && not (is_processing p.status)
    then err (invalid_state ("cannot cancel from: " <> status_text p.status))
    else ok (
        raise (payment_cancelled p.id now)
          (record p { status = Status.cancelled; updated_at = now }))

unfoldable pub pop_events : Payment → List DomainEvent × Payment
pop_events p = (p.events, record p { events = [] })

unfoldable pub peek_events : Payment → List DomainEvent
peek_events p = p.events
