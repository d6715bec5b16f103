-- ===== src/Payment/Events/Serial.antt =====
-- `to_dict` and `from_dict` of the payment events (src/domain/apps/payment/events.py,
-- src/domain/shared/events.py). A field whose JSON value has another type than the event class
-- declares is refused; Python, which does not check, would carry it along.
use microservice_payment_ser.Base.{ℕ, Option, none, some, if◌then◌else◌}
use Prim.Native.String.{String}
use microservice_payment_ser.Base.Text.{Text, codes, is_empty}
use microservice_payment_ser.Base.Decimal.{Decimal}
use microservice_payment_ser.Base.Json.{
  Json, Members, null, num, str, object, end, member, get, Codec,
}
use microservice_payment_ser.Errors.{
  Uuid, Time, Result, ok, err, ◌>>=◌, value_error, type_error, dict_key_error,
}
use microservice_payment_ser.Payment.Events.Fields.{
  EventHead, PaymentEvent, payment_created, payment_processed, payment_succeeded, payment_failed,
  payment_cancelled, payment_refunded, head_of,
}
use microservice_payment_ser.Payment.Events.Registry.{
  EventType, created_type, processed_type, succeeded_type, failed_type, cancelled_type,
  refunded_type, event_value, normalize_payment_event_type,
}

-- `event_type` of each class
abbrev pub type_of_event : PaymentEvent → EventType
type_of_event (payment_created h f) = created_type
type_of_event (payment_processed h) = processed_type
type_of_event (payment_succeeded h) = succeeded_type
type_of_event (payment_failed h r) = failed_type
type_of_event (payment_cancelled h) = cancelled_type
type_of_event (payment_refunded h a c r) = refunded_type

-- `None` or a text
abbrev pub option_json : Option Text → Json
option_json none = null
option_json (some s) = str s

-- `str(id) if id else None`
abbrev pub option_uuid : (Uuid → Text) → Option Uuid → Json
option_uuid show none = null
option_uuid show (some u) = str (show u)

-- `payload`
unfoldable pub payload : Codec → PaymentEvent → Members
payload c (payment_created h f) = member "amount" (str (c.decimal_str f.amount)) (
    member "currency" (str f.currency) (
      member "payment_type" (str f.payment_type) (
        member "payment_method" (str f.payment_method) (
          member "reference_id" (option_uuid c.uuid_str f.reference_id)
            (member "description" (option_json f.description) end)))))
payload c (payment_failed h reason) = member "failure_reason" (option_json reason) end
payload c (payment_refunded h amount currency refund_id) =
    member "refunded_amount" (str (c.decimal_str amount))
      (member "currency" (str currency) (member "refund_id" (str (c.uuid_str refund_id)) end))
payload c _ = end

-- `to_dict`
unfoldable pub to_dict : Codec → PaymentEvent → Members
unfolding payload
to_dict c e =
    let h = head_of e in
    member "event_id" (str (c.uuid_str h.event_id)) (
      member "event_type" (str (event_value (type_of_event e))) (
        member "schema_version" (num h.schema_version) (
          member "occurred_at" (str (c.isoformat h.occurred_at)) (
            member "payload" (object (payload c e)) (
              member "payment_id" (str (c.uuid_str h.payment_id)) (
                member "wallet_id" (str (c.uuid_str h.wallet_id))
                  (member "user_id" (str (c.uuid_str h.user_id)) end)))))))

abbrev pub or_value_error {ℓ} : {A : Type ℓ} → String → Option A → Result A
or_value_error m none = err (value_error m)
or_value_error m (some a) = ok a

abbrev pub as_text : Json → Result Text
as_text (str s) = ok s
as_text _ = err (type_error "a text")

abbrev pub as_number : Json → Result ℕ
as_number (num n) = ok n
as_number _ = err (type_error "a number")

abbrev as_object : Json → Result Members
as_object (object m) = ok m
as_object _ = err (type_error "an object")

-- `d[key]`
abbrev pub item : String → Members → Result Json
item key m = elim (get key m) [ none ↦ err (dict_key_error key) | some v ↦ ok v ]

-- `d.get(key, default)`
abbrev pub item_or : String → Json → Members → Json
item_or key default m = elim (get key m) [ none ↦ default | some v ↦ v ]

abbrev pub uuid_item : Codec → String → Members → Result Uuid
uuid_item c key m = do
  s ← item key m
  t ← as_text s
  or_value_error "badly formed UUID" (c.uuid_of t)

-- `UUID(ref_id) if ref_id else None`
abbrev pub optional_uuid : Codec → Json → Result (Option Uuid)
optional_uuid c null = ok none
optional_uuid c (str s) =
    if is_empty s
    then ok none
    else do u ← or_value_error "badly formed UUID" (c.uuid_of s); ok (some u)
optional_uuid c _ = err (type_error "a UUID")

abbrev pub optional_text : Json → Result (Option Text)
optional_text null = ok none
optional_text (str s) = ok (some s)
optional_text _ = err (type_error "a text")

-- `event_id`, which `uuid4` supplies when it is missing
abbrev event_id_item : Codec → Uuid → Members → Result Uuid
event_id_item c fresh m = elim (get "event_id" m) [
  | none ↦ ok fresh
  | some v ↦ do t ← as_text v; or_value_error "badly formed UUID" (c.uuid_of t)
]

-- `occurred_at`, which the clock supplies when it is missing
abbrev occurred_at_item : Codec → Time → Members → Result Time
occurred_at_item c now m = elim (get "occurred_at" m) [
  | none ↦ ok now
  | some v ↦ do t ← as_text v; or_value_error "bad isoformat" (c.fromisoformat t)
]

-- `base_from_dict`
unfoldable pub base_from_dict : Codec → Uuid → Time → Members → Result EventHead
base_from_dict c fresh now m = do
  occurred_at ← occurred_at_item c now m
  event_id ← event_id_item c fresh m
  schema_version ← as_number (item_or "schema_version" (num 1) m)
  payment_id ← uuid_item c "payment_id" m
  wallet_id ← uuid_item c "wallet_id" m
  user_id ← uuid_item c "user_id" m
  ok (record {
    event_id = event_id;
    occurred_at = occurred_at;
    schema_version = schema_version;
    payment_id = payment_id;
    wallet_id = wallet_id;
    user_id = user_id;
  })

abbrev pub payload_item : Members → Result Members
payload_item m = as_object (item_or "payload" (object end) m)

abbrev decimal_item : Codec → String → Members → Result Decimal
decimal_item c key m = do
  t ← as_text (item_or key (str (codes "0")) m)
  or_value_error "invalid decimal" (c.decimal_of t)

-- `PaymentCreatedEvent.from_dict`, after the common fields
unfoldable pub created_from_dict : Codec → EventHead → Members → Result PaymentEvent
created_from_dict c h p = do
  amount ← decimal_item c "amount" p
  currency ← as_text (item_or "currency" (str (codes "USD")) p)
  payment_type ← as_text (item_or "payment_type" (str (codes "payment")) p)
  payment_method ← as_text (item_or "payment_method" (str (codes "other")) p)
  reference_id ← optional_uuid c (item_or "reference_id" null p)
  description ← optional_text (item_or "description" null p)
  ok (
      payment_created h (record {
        amount = amount;
        currency = currency;
        payment_type = payment_type;
        payment_method = payment_method;
        reference_id = reference_id;
        description = description;
      }))

-- `PaymentFailedEvent.from_dict`, after the common fields
unfoldable pub failed_from_dict : EventHead → Members → Result PaymentEvent
failed_from_dict h p = do
  reason ← optional_text (item_or "failure_reason" null p)
  ok (payment_failed h reason)

-- `PaymentRefundedEvent.from_dict`, after the common fields
unfoldable pub refunded_from_dict : Codec → EventHead → Members → Result PaymentEvent
refunded_from_dict c h p = do
  amount ← decimal_item c "refunded_amount" p
  currency ← as_text (item_or "currency" (str (codes "USD")) p)
  refund_id ← uuid_item c "refund_id" p
  ok (payment_refunded h amount currency refund_id)

-- `from_dict` of the class of an event type
unfoldable pub from_dict : Codec → Uuid → Time → EventType → Members → Result PaymentEvent
from_dict c fresh now created_type m = do
  h ← base_from_dict c fresh now m
  p ← payload_item m
  created_from_dict c h p
from_dict c fresh now processed_type m = do
  h ← base_from_dict c fresh now m
  ok (payment_processed h)
from_dict c fresh now succeeded_type m = do
  h ← base_from_dict c fresh now m
  ok (payment_succeeded h)
from_dict c fresh now failed_type m = do
  h ← base_from_dict c fresh now m
  p ← payload_item m
  failed_from_dict h p
from_dict c fresh now cancelled_type m = do
  h ← base_from_dict c fresh now m
  ok (payment_cancelled h)
from_dict c fresh now refunded_type m = do
  h ← base_from_dict c fresh now m
  p ← payload_item m
  refunded_from_dict c h p

-- `event_from_dict`
unfoldable pub event_from_dict : Codec → Uuid → Time → Text → Members → Result PaymentEvent
event_from_dict c fresh now s m = elim (normalize_payment_event_type s) [
  | none ↦ err (value_error "Unknown payment event type")
  | some t ↦ from_dict c fresh now t m
]
