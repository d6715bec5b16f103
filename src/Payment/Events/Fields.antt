-- ===== src/Payment/Events/Fields.antt =====
-- The payment events of src/domain/apps/payment/events.py, with the common fields of
-- src/domain/shared/events.py. `event_id` and `occurred_at` are given by the caller, who stands
-- for `uuid4` and the clock.
use microservice_payment_ser.Base.{ℕ, Option}
use microservice_payment_ser.Base.Text.{Text}
use microservice_payment_ser.Base.Decimal.{Decimal}
use microservice_payment_ser.Errors.{Uuid, Time}

-- The fields of `DomainEvent` and `PaymentEvent`.
pub record EventHead : Type 0 where
  pub event_id : Uuid
  pub occurred_at : Time
  pub schema_version : ℕ
  pub payment_id : Uuid
  pub wallet_id : Uuid
  pub user_id : Uuid

-- The fields that `PaymentCreatedEvent` adds.
pub record CreatedFields : Type 0 where
  pub amount : Decimal
  pub currency : Text
  pub payment_type : Text
  pub payment_method : Text
  pub reference_id : Option Uuid
  pub description : Option Text

-- One constructor for each event class.
pub data PaymentEvent : Type 0 where
  payment_created : EventHead → CreatedFields → PaymentEvent
  payment_processed payment_succeeded : EventHead → PaymentEvent
  payment_failed : EventHead → Option Text → PaymentEvent
  payment_cancelled : EventHead → PaymentEvent
  payment_refunded : EventHead → Decimal → Text → Uuid → PaymentEvent

abbrev pub head_of : PaymentEvent → EventHead
head_of (payment_created h f) = h
head_of (payment_processed h) = h
head_of (payment_succeeded h) = h
head_of (payment_failed h r) = h
head_of (payment_cancelled h) = h
head_of (payment_refunded h a c r) = h
