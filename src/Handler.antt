-- ===== src/Handler.antt =====
-- The creation commands of `PaymentCommandHandler`
-- (src/application/payment/handlers/payment_command_handlers.py): the payload that is hashed and
-- read again for the view, and the command that the executor runs.
use microservice_payment_ser.Base.{Option, none, some, [], if◌then◌else◌}
use microservice_payment_ser.Base.Text.{Text, codes}
use microservice_payment_ser.Base.Json.{Json, Members, Codec, null, str, end, member}
use microservice_payment_ser.Errors.{
  Uuid, Error, Result, payment_domain_error, is_payment_domain_error,
}
use microservice_payment_ser.Action.{Action, rethrow}
use microservice_payment_ser.Payment.Aggregate.{Env, or_text}
use microservice_payment_ser.EventStore.{Database, Setting}
use microservice_payment_ser.Repository.{Source}
use microservice_payment_ser.Commands
use microservice_payment_ser.Commands.{CreateRequest}
use microservice_payment_ser.Executor.{PaymentView, System, CreationCall, execute_payment_creation}
pub mod Views
mod Tests

-- `str(x) if x else None`
abbrev pub id_json : Codec → Option Uuid → Json
id_json c none = null
id_json c (some u) = str (c.uuid_str u)

-- The items that every payload begins with.
abbrev money_items : Codec → CreateRequest → Members → Members
money_items c q rest = member "wallet_id" (str (c.uuid_str q.wallet_id)) (
    member "user_id" (str (c.uuid_str q.user_id))
      (member "amount" (str (c.decimal_str q.amount)) (member "currency" (str q.currency) rest)))

-- The payload of `create_deposit` and of `create_withdrawal`, by its type.
abbrev pub external_payload : Codec → Text → CreateRequest → Members
external_payload c type q = money_items c q (
    member "payment_method" (str q.payment_method) (
      member "reference_id" (id_json c q.reference_id) (
        member "description" (str (or_text q.description []))
          (member "payment_id" (id_json c q.payment_id) (member "type" (str type) end)))))

-- The payload of `create_payment_for_booking`.
abbrev pub booking_payload : Codec → CreateRequest → Uuid → Members
booking_payload c q booking_id = money_items c q (
    member "payment_method" (str q.payment_method) (
      member "booking_id" (str (c.uuid_str booking_id)) (
        member "description" (str (or_text q.description [])) (
          member "payment_id" (id_json c q.payment_id)
            (member "type" (str (codes "booking_payment")) end)))))

-- The payload of `create_refund`; `payment_id` of the request is `refund_id`.
abbrev pub refund_payload : Codec → CreateRequest → Uuid → Members
refund_payload c q original_payment_id = money_items c q (
    member "original_payment_id" (str (c.uuid_str original_payment_id)) (
      member "refund_id" (id_json c q.payment_id) (
        member "description" (str (or_text q.description []))
          (member "type" (str (codes "refund")) end))))

-- `_execute`'s `except PaymentDomainError: raise` and `except Exception`
abbrev pub creation_error : Error → Error
creation_error e = if is_payment_domain_error e then e else payment_domain_error "Failed to create"

module _ (c : Codec) (s : Setting) (fingerprint : Members → Text) (message : Error → Text)
    (fetch_view : Uuid → Database → Result PaymentView) where
  abbrev executor : CreationCall → Members → Action Database Uuid → Action System PaymentView
  executor call payload =
      execute_payment_creation c fingerprint message fetch_view (record call { payload = payload })

  unfoldable pub create_deposit : CreationCall → Env → CreateRequest → Action System PaymentView
  unfolding execute_payment_creation
  create_deposit call env q =
      executor call (external_payload c (codes "deposit") q)
        (rethrow creation_error (Commands.create_deposit c s env q))

  unfoldable pub create_withdrawal : CreationCall → Env → CreateRequest → Action System PaymentView
  unfolding execute_payment_creation
  create_withdrawal call env q =
      executor call (external_payload c (codes "withdrawal") q)
        (rethrow creation_error (Commands.create_withdrawal c s env q))

  -- its `_execute` hands every exception on
  unfoldable pub create_payment_for_booking :
      CreationCall → Env → CreateRequest → Uuid → Action System PaymentView
  unfolding execute_payment_creation
  create_payment_for_booking call env q booking_id =
      executor call (booking_payload c q booking_id)
        (Commands.create_payment_for_booking c s env q booking_id)

  unfoldable pub create_refund :
      CreationCall → Source → Env → CreateRequest → Uuid → Action System PaymentView
  unfolding execute_payment_creation
  create_refund call src env q original_payment_id =
      executor call (refund_payload c q original_payment_id)
        (rethrow creation_error (Commands.create_refund c s src env q original_payment_id))
