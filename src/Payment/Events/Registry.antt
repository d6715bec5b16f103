-- ===== src/Payment/Events/Registry.antt =====
-- The registry of event types (src/domain/apps/payment/events.py) and the spellings that
-- `normalize_payment_event_type` accepts.
use microservice_payment_ser.Base.{
  ℕ, ◌-◌, ◌≡◌, refl, Bool, true, ◌&&◌, Option, none, some, List, [], ◌∷◌, length, take, leb, ◌==◌,
  if◌then◌else◌,
}
use microservice_payment_ser.Base.Text.{Text, codes, text_eq, upper}

-- `PaymentEventType`
pub data EventType : Type 0 where
  created_type processed_type succeeded_type failed_type cancelled_type refunded_type : EventType

-- The value of a `PaymentEventType`.
unfoldable pub event_value : EventType → Text
event_value created_type = codes "payment.created"
event_value processed_type = codes "payment.processed"
event_value succeeded_type = codes "payment.succeeded"
event_value failed_type = codes "payment.failed"
event_value cancelled_type = codes "payment.cancelled"
event_value refunded_type = codes "payment.refunded"

-- The name of a `PaymentEventType`.
unfoldable pub enum_name : EventType → Text
enum_name created_type = codes "PAYMENT_CREATED"
enum_name processed_type = codes "PAYMENT_PROCESSED"
enum_name succeeded_type = codes "PAYMENT_SUCCEEDED"
enum_name failed_type = codes "PAYMENT_FAILED"
enum_name cancelled_type = codes "PAYMENT_CANCELLED"
enum_name refunded_type = codes "PAYMENT_REFUNDED"

-- The name of the event class.
unfoldable pub class_name : EventType → Text
class_name created_type = codes "PaymentCreatedEvent"
class_name processed_type = codes "PaymentProcessedEvent"
class_name succeeded_type = codes "PaymentSucceededEvent"
class_name failed_type = codes "PaymentFailedEvent"
class_name cancelled_type = codes "PaymentCancelledEvent"
class_name refunded_type = codes "PaymentRefundedEvent"

abbrev all_types : List EventType
all_types =
    created_type ∷ processed_type ∷ succeeded_type ∷ failed_type ∷ cancelled_type ∷ refunded_type
    ∷ []

-- The first event type whose spelling by `name` is the text.
abbrev find_type : (EventType → Text) → List EventType → Text → Option EventType
find_type name [] s = none
find_type name (t ∷ ts) s = if text_eq s (name t) then some t else find_type name ts s

-- `PAYMENT_EVENT_REGISTRY.get`: the class is named by its event type
unfoldable pub registry_get : Text → Option EventType
unfolding event_value
registry_get s = find_type event_value all_types s

-- `PaymentEventType[name]`
unfoldable pub enum_get : Text → Option EventType
unfolding enum_name
enum_get s = find_type enum_name all_types s

abbrev ends_with : Text → Text → Bool
ends_with suffix [] = text_eq [] suffix
ends_with suffix (c ∷ s) = if text_eq (c ∷ s) suffix then true else ends_with suffix s

abbrev is_upper : ℕ → Bool
is_upper c = leb b'A' c && leb c b'Z'

-- `"_" + c if c.isupper() else c`, for each character
abbrev split_words : Text → Text
split_words [] = []
split_words (c ∷ s) = if is_upper c then b'_' ∷ c ∷ split_words s else c ∷ split_words s

abbrev lstrip_underscore : Text → Text
lstrip_underscore [] = []
lstrip_underscore (c ∷ s) = if c == b'_' then lstrip_underscore s else c ∷ s

abbrev class_to_enum : Text → Text
class_to_enum s =
    let base = if ends_with (codes "Event") s then take (length s - 5) s else s in
    lstrip_underscore (upper (split_words base))

abbrev or_else {ℓ} : {A : Type ℓ} → Option A → Option A → Option A
or_else (some a) other = some a
or_else none other = other

-- `normalize_payment_event_type`, as the event type whose value it returns; `none` is the
-- `ValueError`
unfoldable pub normalize_payment_event_type : Text → Option EventType
unfolding registry_get enum_get upper
normalize_payment_event_type s =
    or_else (registry_get s) (or_else (enum_get s) (enum_get (class_to_enum s)))

-- The canonical value, the name of the enumeration and the name of the class of an event type all
-- normalise to it.
pub normalize_spellings :
    (t : EventType)
    → (normalize_payment_event_type (event_value t) ≡ some t)
      × (normalize_payment_event_type (enum_name t) ≡ some t)
      × (normalize_payment_event_type (class_name t) ≡ some t)
unfolding normalize_payment_event_type class_name
normalize_spellings created_type = (refl, refl, refl)
normalize_spellings processed_type = (refl, refl, refl)
normalize_spellings succeeded_type = (refl, refl, refl)
normalize_spellings failed_type = (refl, refl, refl)
normalize_spellings cancelled_type = (refl, refl, refl)
normalize_spellings refunded_type = (refl, refl, refl)
