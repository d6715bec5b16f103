-- ===== src/Payment/Events/RoundTrip.antt =====
-- `to_dict` against `event_from_dict` (src/domain/apps/payment/events.py).
use microservice_payment_ser.Base.{◌≡◌, refl, some, none, arith, Option}
use microservice_payment_ser.Base.Text.{Text}
use microservice_payment_ser.Base.Decimal.{Decimal}
use microservice_payment_ser.Base.Json.{Codec}
use microservice_payment_ser.Errors.{Uuid, Time, ok}
use microservice_payment_ser.Payment.Events.Fields.{
  PaymentEvent, payment_created, payment_processed, payment_succeeded, payment_failed,
  payment_cancelled, payment_refunded, head_of, EventHead, CreatedFields,
}
use microservice_payment_ser.Payment.Events.Registry.{event_value, normalize_spellings}
use microservice_payment_ser.Payment.Events.Serial.{
  to_dict, from_dict, base_from_dict, created_from_dict, failed_from_dict, refunded_from_dict,
  payload_item, event_from_dict, type_of_event, payload, optional_uuid, option_uuid, optional_text,
  option_json,
}

base_from_dict-to_dict :
    (c : Codec) (fresh : Uuid) (now : Time) (e : PaymentEvent)
    → base_from_dict c fresh now (to_dict c e) ≡ ok (head_of e)
unfolding base_from_dict to_dict
base_from_dict-to_dict c fresh now e =
    let h = head_of e in
    ground (
      arith,
      c.fromisoformat-isoformat h.occurred_at,
      c.uuid_of-uuid_str h.event_id,
      c.uuid_of-uuid_str h.payment_id,
      c.uuid_of-uuid_str h.wallet_id,
      c.uuid_of-uuid_str h.user_id,
    )

optional_uuid-option_uuid :
    (c : Codec) (u : Option Uuid) → optional_uuid c (option_uuid c.uuid_str u) ≡ ok u
optional_uuid-option_uuid c none = refl
optional_uuid-option_uuid c (some u) = ground (arith, c.uuid_of-uuid_str u, c.uuid_str_non_empty u)

optional_text-option_json : (s : Option Text) → optional_text (option_json s) ≡ ok s
optional_text-option_json none = refl
optional_text-option_json (some s) = refl

created_from_dict-payload :
    (c : Codec) (h : EventHead) (f : CreatedFields)
    → created_from_dict c h (payload c (payment_created h f)) ≡ ok (payment_created h f)
unfolding created_from_dict payload
created_from_dict-payload c h f = ground (
  arith,
  c.decimal_of-decimal_str f.amount,
  optional_uuid-option_uuid c f.reference_id,
  optional_text-option_json f.description,
)

failed_from_dict-payload :
    (c : Codec) (h : EventHead) (reason : Option Text)
    → failed_from_dict h (payload c (payment_failed h reason)) ≡ ok (payment_failed h reason)
unfolding failed_from_dict payload
failed_from_dict-payload c h reason = ground (arith, optional_text-option_json reason)

refunded_from_dict-payload :
    (c : Codec) (h : EventHead) (amount : Decimal) (currency : Text) (id : Uuid)
    → let e = payment_refunded h amount currency id in refunded_from_dict c h (payload c e) ≡ ok e
unfolding refunded_from_dict payload
refunded_from_dict-payload c h amount currency id =
    ground (arith, c.decimal_of-decimal_str amount, c.uuid_of-uuid_str id)

payload_item-to_dict :
    (c : Codec) (e : PaymentEvent) → payload_item (to_dict c e) ≡ ok (payload c e)
unfolding to_dict
payload_item-to_dict c e = refl

-- The class of each event reads its own dictionary back.
pub from_dict-to_dict :
    (c : Codec) (fresh : Uuid) (now : Time) (e : PaymentEvent)
    → from_dict c fresh now (type_of_event e) (to_dict c e) ≡ ok e
unfolding from_dict
from_dict-to_dict c fresh now (payment_created h f) =
    rw (base_from_dict-to_dict c fresh now (payment_created h f), payload_item-to_dict)
      (created_from_dict-payload c h f)
from_dict-to_dict c fresh now (payment_failed h reason) =
    rw (base_from_dict-to_dict c fresh now (payment_failed h reason), payload_item-to_dict)
      (failed_from_dict-payload c h reason)
from_dict-to_dict c fresh now (payment_refunded h a cur id) =
    rw (base_from_dict-to_dict c fresh now (payment_refunded h a cur id), payload_item-to_dict)
      (refunded_from_dict-payload c h a cur id)
from_dict-to_dict c fresh now (payment_processed h) =
    rw (base_from_dict-to_dict c fresh now (payment_processed h))
from_dict-to_dict c fresh now (payment_succeeded h) =
    rw (base_from_dict-to_dict c fresh now (payment_succeeded h))
from_dict-to_dict c fresh now (payment_cancelled h) =
    rw (base_from_dict-to_dict c fresh now (payment_cancelled h))

-- Reading back what an event wrote gives the event, for every event class, when the printed forms
-- of UUIDs, decimals and timestamps can be read back.
pub event_from_dict-to_dict :
    (c : Codec) (fresh : Uuid) (now : Time) (e : PaymentEvent)
    → event_from_dict c fresh now (event_value (type_of_event e)) (to_dict c e) ≡ ok e
unfolding event_from_dict
event_from_dict-to_dict c fresh now e =
    rw ((normalize_spellings (type_of_event e)).0, event_from_dict)
      (from_dict-to_dict c fresh now e)
