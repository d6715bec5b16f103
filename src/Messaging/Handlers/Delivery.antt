-- ===== src/Messaging/Handlers/Delivery.antt =====
-- An event that was written to the outbox and comes back from the topic is logged by its own handler
-- and by its dispatcher (src/messaging/payment, src/messaging/kafka/dispatchers).
use microservice_payment_ser.Base.{◌≡◌, refl, some, [], ◌∷◌, ◌++◌, ap}
use microservice_payment_ser.Base.Json.{object, Codec}
use microservice_payment_ser.Errors.{Uuid, Time, ok}
use microservice_payment_ser.Payment.Events.{
  PaymentEvent, payment_created, payment_processed, payment_succeeded, payment_failed,
  payment_cancelled, payment_refunded,
}
use microservice_payment_ser.Payment.Events.Registry.{
  EventType, event_value, registry_get, created_type, processed_type, succeeded_type, failed_type,
  cancelled_type, refunded_type,
}
use microservice_payment_ser.Payment.Events.RoundTrip.{from_dict-to_dict}
use microservice_payment_ser.Payment.Events.Serial.{to_dict, type_of_event}
use microservice_payment_ser.Messaging.Bus.{
  handlers_for, subscribe, run_handlers, publish_event, place,
}
use microservice_payment_ser.Messaging.Handlers.{
  Line, received_created, received_processed, received_succeeded, received_failed,
  received_cancelled, received_refunded, reason_or_unknown, Log, configure_payment_event_bus,
  dispatched_line, dispatch, payment_event_handlers,
}

-- The line that tells of an event.
abbrev pub received_line : PaymentEvent → Line
received_line (payment_created h f) =
    received_created h.payment_id h.wallet_id h.user_id f.amount f.currency f.payment_method
received_line (payment_processed h) = received_processed h.payment_id h.wallet_id h.user_id
received_line (payment_succeeded h) = received_succeeded h.payment_id h.wallet_id h.user_id
received_line (payment_failed h reason) =
    received_failed h.payment_id h.wallet_id h.user_id (reason_or_unknown reason)
received_line (payment_cancelled h) = received_cancelled h.payment_id h.wallet_id h.user_id
received_line (payment_refunded h amount currency refund_id) =
    received_refunded h.payment_id h.wallet_id h.user_id amount currency refund_id

-- On the configured bus each event is logged by exactly one handler.
pub configured_logs_once :
    (e : PaymentEvent) (lines : Log)
    → publish_event (configure_payment_event_bus []) e lines ≡ lines ++ received_line e ∷ []
unfolding publish_event handlers_for run_handlers configure_payment_event_bus subscribe place
configured_logs_once (payment_created h f) lines = refl
configured_logs_once (payment_processed h) lines = refl
configured_logs_once (payment_succeeded h) lines = refl
configured_logs_once (payment_failed h reason) lines = refl
configured_logs_once (payment_cancelled h) lines = refl
configured_logs_once (payment_refunded h amount currency refund_id) lines = refl

pub registry_get-event_value : (t : EventType) → registry_get (event_value t) ≡ some t
unfolding registry_get event_value
registry_get-event_value created_type = refl
registry_get-event_value processed_type = refl
registry_get-event_value succeeded_type = refl
registry_get-event_value failed_type = refl
registry_get-event_value cancelled_type = refl
registry_get-event_value refunded_type = refl

-- The dispatcher that the registry has for the type of an event, given the dictionary of the event,
-- goes through and logs the event once as received and once as dispatched.
pub dispatch-to_dict :
    (c : Codec) (fresh : Uuid) (now : Time) (e : PaymentEvent) (lines : Log)
    → let bus = configure_payment_event_bus [] in
      let t = type_of_event e in
      (payment_event_handlers c fresh now bus (event_value t) ≡ some (dispatch c fresh now bus t))
      × (dispatch c fresh now bus t (object (to_dict c e)) lines
          ≡ (ok tt, (lines ++ received_line e ∷ []) ++ dispatched_line e ∷ []))
unfolding payment_event_handlers dispatch
dispatch-to_dict c fresh now e lines = (
  rw (registry_get-event_value (type_of_event e), payment_event_handlers),
  rw (from_dict-to_dict c fresh now e)
      (ap (λ (x : Log). (ok tt, x ++ dispatched_line e ∷ [])) (configured_logs_once e lines)),
)
