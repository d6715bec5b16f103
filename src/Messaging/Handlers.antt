-- ===== src/Messaging/Handlers.antt =====
-- The handlers of src/messaging/payment/event_handlers.py, which only log, their subscription
-- (src/messaging/payment/config.py), and the dispatchers of
-- src/messaging/kafka/dispatchers/payment/dispatchers.py. The log is the list of its lines.
use microservice_payment_ser.Base.{Option, none, some, List, [], ◌∷◌, ◌++◌, if◌then◌else◌}
use microservice_payment_ser.Base.Text.{Text, codes, is_empty}
use microservice_payment_ser.Base.Decimal.{Decimal}
use microservice_payment_ser.Base.Json.{Json, Members, object, Codec}
use microservice_payment_ser.Errors.{Uuid, Time, Result, ok, err, type_error}
use microservice_payment_ser.Action.{Action, ◌>>=◌, ◌>>◌, pure, lift, modify}
use microservice_payment_ser.Payment.Events.{
  PaymentEvent, payment_created, payment_processed, payment_succeeded, payment_failed,
  payment_cancelled, payment_refunded, head_of,
}
use microservice_payment_ser.Payment.Events.Registry.{
  EventType, created_type, processed_type, succeeded_type, failed_type, cancelled_type,
  refunded_type, registry_get,
}
use microservice_payment_ser.Payment.Events.Serial.{from_dict, type_of_event}
use microservice_payment_ser.Messaging.Bus.{Bus, Handler, subscribe, publish_event}
pub mod Delivery

-- The lines that the handlers log, with their arguments: payment, wallet, user and what is added.
pub data Line : Type 0 where
  received_created : Uuid → Uuid → Uuid → Decimal → Text → Text → Line
  received_processed received_succeeded : Uuid → Uuid → Uuid → Line
  received_failed : Uuid → Uuid → Uuid → Text → Line
  received_cancelled : Uuid → Uuid → Uuid → Line
  received_refunded : Uuid → Uuid → Uuid → Decimal → Text → Uuid → Line
  -- those of the dispatchers: payment, wallet and what is added
  dispatched_created : Uuid → Uuid → Decimal → Text → Line
  dispatched_processed dispatched_succeeded : Uuid → Uuid → Line
  dispatched_failed : Uuid → Uuid → Text → Line
  dispatched_cancelled : Uuid → Uuid → Line
  dispatched_refunded : Uuid → Uuid → Decimal → Text → Line

abbrev pub Log : Type 0
Log = List Line

abbrev log : Line → Action Log (Unit {0})
log line = modify (λ lines. lines ++ line ∷ [])

-- `event.failure_reason or "unknown"`
abbrev reason_or_unknown : Option Text → Text
reason_or_unknown none = codes "unknown"
reason_or_unknown (some reason) = if is_empty reason then codes "unknown" else reason

-- `PaymentCreatedHandler.handle`
abbrev pub created_handler : Handler Log
created_handler (payment_created h f) =
    log (received_created h.payment_id h.wallet_id h.user_id f.amount f.currency f.payment_method)
created_handler _ = pure tt

-- `PaymentProcessedHandler.handle`
abbrev pub processed_handler : Handler Log
processed_handler (payment_processed h) =
    log (received_processed h.payment_id h.wallet_id h.user_id)
processed_handler _ = pure tt

-- `PaymentSucceededHandler.handle`
abbrev pub succeeded_handler : Handler Log
succeeded_handler (payment_succeeded h) =
    log (received_succeeded h.payment_id h.wallet_id h.user_id)
succeeded_handler _ = pure tt

-- `PaymentFailedHandler.handle`
abbrev pub failed_handler : Handler Log
failed_handler (payment_failed h reason) =
    log (received_failed h.payment_id h.wallet_id h.user_id (reason_or_unknown reason))
failed_handler _ = pure tt

-- `PaymentCancelledHandler.handle`
abbrev pub cancelled_handler : Handler Log
cancelled_handler (payment_cancelled h) =
    log (received_cancelled h.payment_id h.wallet_id h.user_id)
cancelled_handler _ = pure tt

-- `PaymentRefundedHandler.handle`
abbrev pub refunded_handler : Handler Log
refunded_handler (payment_refunded h amount currency refund_id) =
    log (received_refunded h.payment_id h.wallet_id h.user_id amount currency refund_id)
refunded_handler _ = pure tt

-- `configure_payment_event_bus`
unfoldable pub configure_payment_event_bus : Bus Log → Bus Log
unfolding subscribe
configure_payment_event_bus bus =
    let bus1 = subscribe created_type created_handler bus in
    let bus2 = subscribe processed_type processed_handler bus1 in
    let bus3 = subscribe succeeded_type succeeded_handler bus2 in
    let bus4 = subscribe failed_type failed_handler bus3 in
    let bus5 = subscribe cancelled_type cancelled_handler bus4 in
    subscribe refunded_type refunded_handler bus5

-- The line of each dispatcher.
unfoldable pub dispatched_line : PaymentEvent → Line
dispatched_line (payment_created h f) =
    dispatched_created h.payment_id h.wallet_id f.amount f.currency
dispatched_line (payment_processed h) = dispatched_processed h.payment_id h.wallet_id
dispatched_line (payment_succeeded h) = dispatched_succeeded h.payment_id h.wallet_id
dispatched_line (payment_failed h reason) =
    dispatched_failed h.payment_id h.wallet_id (reason_or_unknown reason)
dispatched_line (payment_cancelled h) = dispatched_cancelled h.payment_id h.wallet_id
dispatched_line (payment_refunded h amount currency refund_id) =
    dispatched_refunded h.payment_id h.wallet_id amount currency

-- `from_dict` on a parsed message, which may be no object.
abbrev read_event : Codec → Uuid → Time → EventType → Json → Result PaymentEvent
read_event c fresh now t (object m) = from_dict c fresh now t m
read_event c fresh now t _ = err (type_error "a dictionary")

-- `handle_payment_created` and the other dispatchers; each awaits the bus before it logs.
unfoldable pub dispatch : Codec → Uuid → Time → Bus Log → EventType → Json → Action Log (Unit {0})
unfolding from_dict publish_event dispatched_line
dispatch c fresh now bus t message = do
  e ← lift (read_event c fresh now t message)
  modify (λ lines. publish_event bus e lines)
  log (dispatched_line e)

-- `PAYMENT_EVENT_HANDLERS`, with which `HANDLER_REGISTRY` of the consumer is filled.
unfoldable pub payment_event_handlers :
    Codec → Uuid → Time → Bus Log → Text → Option (Json → Action Log (Unit {0}))
unfolding registry_get dispatch
payment_event_handlers c fresh now bus name = elim (registry_get name) [
  | none ↦ none
  | some t ↦ some (dispatch c fresh now bus t)
]
