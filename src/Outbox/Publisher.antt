-- ===== src/Outbox/Publisher.antt =====
-- Publish and envelope of internal/adapter/outbound/rabbitmq/event_publisher.go, with the DomainEvent of
-- application/ports/event_publisher.go. The connection is set up elsewhere; the broker is a parameter.
use payment_module.Common.{
  ℕ, String, Bool, Option, none, some, List, [], ◌∷◌, str_eq, if◌then◌else◌,
}
use payment_module.Errors.{Error, internal, gateway_error}
use payment_module.Domain.Types.{Time, Uuid, DomainEvent}

-- ports.DomainEvent; the payload is the JSON of the event.
pub record EventMessage : Type 0 where
  pub id : Uuid
  pub aggregate_id : Uuid
  pub event_type : String
  pub payload : DomainEvent
  pub occurred_at : Time

pub record Envelope : Type 0 where
  pub event_id : Uuid
  pub event_type : String
  pub aggregate_id : Uuid
  pub aggregate_type : String
  pub version : ℕ
  pub occurred_at : Time
  pub event_data : DomainEvent
  pub source_service : String

-- How one publish ends at the broker: refused on sending, on a channel without confirm mode, not
-- confirmed in time, or confirmed either way.
pub data Confirmation : Type 0 where
  refused : Error → Confirmation
  no_confirm_mode : Confirmation
  unconfirmed : Error → Confirmation
  nacked acked : Confirmation

-- json.Marshal of the envelope may fail; `is_zero` is that of time.Time.
pub record Broker : Type 0 where
  pub clock : ℕ → Time
  pub is_zero : Time → Bool
  pub marshal : Envelope → Option Error
  pub confirm : ℕ → (routing_key : String) → Envelope → Confirmation

abbrev routing_keys : List (String × String)
routing_keys =
    ("PaymentInitiated", "payment.initiated")
    ∷ ("PaymentPending", "payment.pending")
    ∷ ("PaymentCompleted", "payment.completed")
    ∷ ("PaymentFailed", "payment.failed")
    ∷ ("PaymentCancelled", "payment.cancelled")
    ∷ ("PaymentExpired", "payment.expired")
    ∷ ("RefundRequested", "refund.requested")
    ∷ ("RefundCompleted", "refund.completed")
    ∷ ("RefundFailed", "refund.failed")
    ∷ []

key_in : List (String × String) → String → Option String
key_in [] event_type = none
key_in ((t, rk) ∷ more) event_type = if str_eq t event_type then some rk else key_in more event_type

unfoldable pub routing_key : String → Option String
unfolding key_in
routing_key event_type = key_in routing_keys event_type

module _ (broker : Broker) where
  unfoldable pub envelope : ℕ → (routing_key : String) → EventMessage → Envelope
  envelope t rk event = record {
    event_id = event.id;
    event_type = rk;
    aggregate_id = event.aggregate_id;
    aggregate_type = "PAYMENT";
    version = 1;
    occurred_at = if broker.is_zero event.occurred_at then broker.clock t else event.occurred_at;
    event_data = event.payload;
    source_service = "paygate-service";
  }

  unfoldable pub answer_of : Confirmation → Option Error
  answer_of (refused e) = some (gateway_error "rabbitmq publish" (some e))
  answer_of no_confirm_mode = some (internal "rabbitmq channel is not in confirm mode" none)
  answer_of (unconfirmed e) = some (gateway_error "rabbitmq confirm not received" (some e))
  answer_of nacked = some (gateway_error "rabbitmq nack received" none)
  answer_of acked = none

  unfoldable pub send_marshalled :
      ℕ → (routing_key : String) → Envelope → Option Error → Option Error
  unfolding answer_of
  send_marshalled t rk body (some e) = some (internal "marshal event envelope" (some e))
  send_marshalled t rk body none = answer_of (broker.confirm t rk body)

  unfoldable pub publish_routed : ℕ → EventMessage → Option String → Option Error
  unfolding envelope send_marshalled
  publish_routed t event none = none
  publish_routed t event (some rk) =
      let body = envelope t rk event in send_marshalled t rk body (broker.marshal body)

  -- An event type without a routing key is skipped with a warning.
  unfoldable pub publish : ℕ → EventMessage → Option Error
  unfolding publish_routed
  publish t event = publish_routed t event (routing_key event.event_type)
