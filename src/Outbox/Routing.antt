-- ===== src/Outbox/Routing.antt =====
-- Publish of event_publisher.go for the events that the repository writes to the outbox.
use mathlib.Core.Path.{subst}
use payment_module.Common.{◌≡◌, refl, ℕ, String, Option, none, some, arith, ap, ◌∙◌}
use payment_module.Errors.{Error}
use payment_module.Domain.Types.{
  DomainEvent, event_type, payment_initiated, payment_pending, payment_completed, payment_failed,
  payment_cancelled, payment_expired, refund_requested, refund_completed, refund_declined,
}
use payment_module.Outbox.Publisher.{
  Broker, EventMessage, Confirmation, acked, routing_key, envelope, answer_of, publish,
  publish_routed, send_marshalled,
}

-- The envelope of the event was sent with a routing key, and the broker confirmed it.
pub record Confirmed (broker : Broker) (t : ℕ) (event : EventMessage) : Type 0 where
  pub key : String
  pub routed : routing_key event.event_type ≡ some key
  pub confirmed : broker.confirm t key (envelope broker t key event) ≡ acked

pub routing_key-event_type :
    (e : DomainEvent) → (rk : String) × (routing_key (event_type e) ≡ some rk)
unfolding routing_key
routing_key-event_type (payment_initiated _ _) = ("payment.initiated", refl)
routing_key-event_type (payment_pending _ _ _) = ("payment.pending", refl)
routing_key-event_type (payment_completed _ _ _) = ("payment.completed", refl)
routing_key-event_type (payment_failed _ _ _ _) = ("payment.failed", refl)
routing_key-event_type (payment_cancelled _ _) = ("payment.cancelled", refl)
routing_key-event_type (payment_expired _ _) = ("payment.expired", refl)
routing_key-event_type (refund_requested _ _ _ _) = ("refund.requested", refl)
routing_key-event_type (refund_completed _ _ _ _ _ _) = ("refund.completed", refl)
routing_key-event_type (refund_declined _ _ _ _) = ("refund.failed", refl)

module _ (broker : Broker) (t : ℕ) (event : EventMessage) where
  answer_of-acked : (c : Confirmation) → answer_of broker c ≡ none → c ≡ acked
  unfolding answer_of
  answer_of-acked c e = ground (arith, e)

  send-acked :
      (rk : String) (fault : Option Error)
      → send_marshalled broker t rk (envelope broker t rk event) fault ≡ none
      → broker.confirm t rk (envelope broker t rk event) ≡ acked
  unfolding send_marshalled
  send-acked rk (some x) e = ground (arith, e)
  send-acked rk none e = answer_of-acked (broker.confirm t rk (envelope broker t rk event)) e

  -- For an event of the type of a domain event, Publish returns no error only if the broker confirmed
  -- the event's envelope, sent with a routing key of its type.
  pub publish-Confirmed :
      (e : DomainEvent)
      → event.event_type ≡ event_type e
      → publish broker t event ≡ none
      → Confirmed broker t event
  unfolding publish publish_routed
  publish-Confirmed e typed quiet =
      let (rk, routable) = routing_key-event_type e in
      let routed : routing_key event.event_type ≡ some rk = ap routing_key typed ∙ routable in
      record {
        key = rk;
        routed = routed;
        confirmed =
            send-acked rk (broker.marshal (envelope broker t rk event))
              (subst (λ o. publish_routed broker t event o ≡ none) routed quiet);
      }
