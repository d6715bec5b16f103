-- ===== src/Messaging/Consumer/EndToEnd.antt =====
-- An event on its way from the outbox (src/messaging/kafka/outbox_publisher.py) to its handlers
-- (src/messaging/kafka/consumer.py).
use microservice_payment_ser.Base.{
  ℕ, ◌+◌, ◌≡◌, refl, false, some, [], ◌∷◌, ◌++◌, inl, inr, ◌∙◌, ap, Bool-cases,
}
use microservice_payment_ser.Base.Text.{Text}
use microservice_payment_ser.Base.Json.{Json, object, Codec}
use microservice_payment_ser.Action.{Action}
use microservice_payment_ser.Errors.{Time, ok, Uuid}
use microservice_payment_ser.Outbox.{OutboxRow, new_row}
use microservice_payment_ser.EventStore.{Setting, Target, outbox_event}
use microservice_payment_ser.Payment.Events.{PaymentEvent}
use microservice_payment_ser.Payment.Events.Serial.{to_dict, type_of_event}
use microservice_payment_ser.Messaging.Wire.{Wire, Message, message_of}
use microservice_payment_ser.Messaging.Handlers.{
  Log, configure_payment_event_bus, payment_event_handlers, dispatched_line, dispatch,
}
use microservice_payment_ser.Messaging.Handlers.Delivery.{dispatch-to_dict, received_line}
use microservice_payment_ser.Messaging.Consumer.{
  Cache, cached, unknown, is_anonymous, is_duplicate, Delivery, Consuming, message_id, Registry,
  process_message, process_event, read_payload, event_type_header, finish, receive,
}

message_id-uuid_str :
    (w : Wire) (c : Codec) (r : OutboxRow) → message_id (message_of w c r).key ≡ c.uuid_str r.id
unfolding message_of
message_id-uuid_str w c r = rw (c.uuid_str_non_empty r.id)

-- A message whose key is not in the cache is processed, whether or not it has a key.
receive-absent :
    {W : Type 0} (w : Wire) (registry : Registry W) (cull : Cache → Cache) (d : Delivery w.Bytes)
    (s : Consuming W)
    → cached (message_id d.message.key) d.now s.cache ≡ false
    → receive w registry cull d s
      ≡ finish w registry d.offset
          (record s { cache = (is_duplicate cull (message_id d.message.key) d.now s.cache).1 })
          (process_message w registry d.message s.world)
unfolding receive is_duplicate
receive-absent w registry cull d s absent =
    elim (Bool-cases (is_anonymous (message_id d.message.key))) [
      | inl e ↦ rw e refl
      | inr e ↦ rw (e, absent) refl
    ]

process_message-found :
    {W : Type 0} (w : Wire) (registry : Registry W) (m : Message w.Bytes) (name : Text)
    (handler : Json → Action W (Unit {0})) (payload : Json) (s : W)
    → event_type_header unknown m.headers ≡ name
    → registry name ≡ some handler
    → w.loads m.value ≡ some payload
    → process_message w registry m s ≡ handler payload s
unfolding process_message process_event read_payload
process_message-found w registry m name handler payload s named found parsed =
    rw (named, process_event, found, read_payload, parsed) refl

header_of-message_of :
    (w : Wire) (c : Codec) (r : OutboxRow)
    → event_type_header unknown (message_of w c r).headers ≡ r.event_type
unfolding event_type_header message_of
header_of-message_of w c r = refl

processed-message_of :
    (w : Wire) (c : Codec) (fresh : Uuid) (now : Time) (setting : Setting) (t : Target)
    (e : PaymentEvent) (version : ℕ) (lines : Log)
    → let row = new_row (outbox_event c setting t e version) version in
      let registry = payment_event_handlers c fresh now (configure_payment_event_bus []) in
      process_message w registry (message_of w c row) lines
      ≡ (ok tt, (lines ++ received_line e ∷ []) ++ dispatched_line e ∷ [])
unfolding message_of
processed-message_of w c fresh now setting t e version lines =
    let row = new_row (outbox_event c setting t e version) version in
    let bus = configure_payment_event_bus [] in
    let (registered, logged) = dispatch-to_dict c fresh now e lines in
    process_message-found w (payment_event_handlers c fresh now bus) (message_of w c row) _
      (dispatch c fresh now bus (type_of_event e)) (object (to_dict c e)) lines
      (header_of-message_of w c row) registered (w.loads-dumps (to_dict c e))
    ∙ logged

-- The message that the publisher makes of an outbox row which an append has written for an event,
-- received with the configured bus while its key is not remembered, is committed, and logs the event
-- once as received and once as dispatched.
pub receive-message_of :
    (w : Wire) (c : Codec) (fresh : Uuid) (now : Time) (setting : Setting) (t : Target)
    (e : PaymentEvent) (version : ℕ) (cull : Cache → Cache) (offset : ℕ) (s : Consuming Log)
    → let row = new_row (outbox_event c setting t e version) version in
      let registry = payment_event_handlers c fresh now (configure_payment_event_bus []) in
      cached (c.uuid_str row.id) now s.cache ≡ false
      → let received =
          receive w registry cull
            (record { offset = offset; now = now; message = message_of w c row })
            s in
        (received.position ≡ offset + 1)
        × (received.world ≡ (s.world ++ received_line e ∷ []) ++ dispatched_line e ∷ [])
receive-message_of w c fresh now setting t e version cull offset s absent =
    let row = new_row (outbox_event c setting t e version) version in
    let registry = payment_event_handlers c fresh now (configure_payment_event_bus []) in
    let d : Delivery w.Bytes = record {
      offset = offset;
      now = now;
      message = message_of w c row;
    } in
    let named : message_id d.message.key ≡ c.uuid_str row.id = message_id-uuid_str w c row in
    let done = processed-message_of w c fresh now setting t e version s.world in
    let absent' : cached (message_id d.message.key) now s.cache ≡ false =
      ap (λ id. cached id now s.cache) named ∙ absent in
    let cache = (is_duplicate cull (message_id d.message.key) now s.cache).1 in
    rw (receive-absent w registry cull d s absent', done) (refl, refl)
