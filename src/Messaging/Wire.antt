-- ===== src/Messaging/Wire.antt =====
-- The messages of the topic, as src/messaging/kafka/outbox_publisher.py writes them and
-- src/messaging/kafka/consumer.py reads them.
use microservice_payment_ser.Base.{◌≡◌, Option, some, List, [], ◌∷◌}
use microservice_payment_ser.Base.Text.{Text, codes}
use microservice_payment_ser.Base.Json.{Json, Members, object, Codec}
use microservice_payment_ser.Outbox.{OutboxRow}

-- `json.dumps` and `json.loads` to and from the bytes of a message, and the decoding of bytes;
-- `none` is the `JSONDecodeError`. An object can be read back.
pub record Wire : Type 1 where
  pub Bytes : Type 0
  pub dumps : Members → Bytes
  pub loads : Bytes → Option Json
  pub decode : Bytes → Text
  pub loads-dumps : (m : Members) → loads (dumps m) ≡ some (object m)

-- A message of the topic; the key and the headers are decoded already.
pub record Message (Bytes : Type 0) : Type 0 where
  pub key : Option Text
  pub headers : List (Text × Text)
  pub value : Bytes

-- What `produce` is called with for an event.
unfoldable pub message_of : (w : Wire) → Codec → OutboxRow → Message w.Bytes
message_of w c r = record {
  key = some (c.uuid_str r.id);
  headers = (codes "event_type", r.event_type) ∷ [];
  value = w.dumps r.event_payload;
}
