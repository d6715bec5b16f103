-- ===== src/Commands.antt =====
-- `PaymentCommandService` (src/application/payment/services/payment_command_service.py) over the
-- repository, and the commands of `PaymentCommandHandler`
-- (src/application/payment/handlers/payment_command_handlers.py) that need no idempotency key. The
-- guards on absent ids are not here: a UUID is always true.
use microservice_payment_ser.Base.{◌≡◌, Bool, true, false, Option, none, some, if◌then◌else◌}
use microservice_payment_ser.Base.Text.{Text, is_blank}
use microservice_payment_ser.Base.Decimal.{Decimal, decimal_gt}
use microservice_payment_ser.Base.Json.{Codec}
use microservice_payment_ser.Errors.{
  Uuid, Error, Result, ok, err, map_err, is_payment_domain_error, payment_domain_error,
  payment_not_found, invalid_payment_amount, payment_method_not_supported,
  payment_already_processed, payment_not_processable, refund_amount_exceeds_original, value_error,
  runtime_error,
}
use microservice_payment_ser.Action.{Action, pure, lift, rethrow, ◌>>=◌, ◌>>◌, raise_when}
use microservice_payment_ser.Payment.Types.{PaymentMethod, wallet, method_of}
use microservice_payment_ser.Payment.Aggregate
use microservice_payment_ser.Payment.Aggregate.{
  PaymentAggregate, PaymentRequest, Env, Command, process_command, succeed_command, fail_command,
  cancel_command, refund_command, execute,
}
use microservice_payment_ser.EventStore.{Database, Setting}
use microservice_payment_ser.Repository.{Source, load, save}
pub mod Production
pub mod Transitions
pub mod Refunds
pub mod Tests

-- The keyword arguments of the creation commands; the method is a text still.
pub record CreateRequest : Type 0 where
  pub wallet_id : Uuid
  pub user_id : Uuid
  pub amount : Decimal
  pub currency : Text
  pub payment_method : Text
  pub reference_id : Option Uuid
  pub description : Option Text
  pub payment_id : Option Uuid

abbrev pub request_with : PaymentMethod → CreateRequest → PaymentRequest
request_with m q = record {
  wallet_id = q.wallet_id;
  user_id = q.user_id;
  amount = q.amount;
  currency = q.currency;
  payment_method = m;
  reference_id = q.reference_id;
  description = q.description;
  payment_id = q.payment_id;
}

-- `_parse_payment_method`
unfoldable pub parse_payment_method : Text → Result PaymentMethod
parse_payment_method s = elim (method_of s) [
  | none ↦ err (value_error "Invalid payment method")
  | some m ↦ ok m
]

-- `except (InvalidPaymentAmountError, PaymentMethodNotSupportedError)` and `except Exception`
abbrev pub external_error : Error → Error
external_error (invalid_payment_amount d) = invalid_payment_amount d
external_error (payment_method_not_supported m o) = payment_method_not_supported m o
external_error _ = payment_domain_error "Invalid parameters"

-- `except InvalidPaymentAmountError` and `except Exception`
abbrev pub internal_error : Error → Error
internal_error (invalid_payment_amount d) = invalid_payment_amount d
internal_error _ = payment_domain_error "Invalid parameters"

-- `except PaymentNotFoundError` and `except Exception` around a load
abbrev pub load_error : Uuid → Error → Error
load_error u (payment_not_found v) = payment_not_found v
load_error u _ = payment_not_found u

-- `except (PaymentAlreadyProcessedError, PaymentNotProcessableError)` and `except Exception`
abbrev pub transition_error : Error → Error
transition_error (payment_already_processed u s) = payment_already_processed u s
transition_error (payment_not_processable u s a) = payment_not_processable u s a
transition_error _ = payment_domain_error "Failed to change the payment"

abbrev pub persist_error : Error → Error
persist_error _ = runtime_error "Failed to persist payment"

-- The new payment of `create_refund`, whose request gives no method: it is the wallet.
abbrev pub refund_of : Env → CreateRequest → Uuid → Result PaymentAggregate
refund_of env q original_payment_id =
    Aggregate.create_refund env (request_with wallet q) original_payment_id

-- `PaymentCommandHandler`: `except PaymentDomainError: raise` and `except Exception`
abbrev pub domain_error : Error → Error
domain_error e =
    if is_payment_domain_error e then e else payment_domain_error "Failed to change the payment"

module _ (c : Codec) (s : Setting) where
  -- `_load_payment`
  unfoldable pub load_payment : Source → Uuid → Action Database PaymentAggregate
  load_payment src u db = (map_err (load_error u) (load c src u db), db)

  -- `_create_aggregate` and `_save_aggregate`
  unfoldable pub save_aggregate : PaymentAggregate → Action Database (Unit {0})
  save_aggregate a = do _ ← rethrow persist_error (save c s a); pure tt

  -- What the creation commands share, from the arguments that have been checked on.
  abbrev pub persist_new : (Error → Error) → Result PaymentAggregate → Action Database Uuid
  persist_new wrap made = do a ← lift (map_err wrap made); save_aggregate a; pure a.payment_id

  abbrev pub check_currency : CreateRequest → Action Database (Unit {0})
  check_currency q = raise_when (is_blank q.currency) (value_error "Currency is required")

  abbrev pub check_method : CreateRequest → Action Database PaymentMethod
  check_method q = do
    raise_when (is_blank q.payment_method) (value_error "Payment method is required")
    lift (parse_payment_method q.payment_method)

  unfoldable pub create_deposit : Env → CreateRequest → Action Database Uuid
  unfolding parse_payment_method
  create_deposit env q = do
    check_currency q
    m ← check_method q
    persist_new external_error (Aggregate.create_deposit env (request_with m q))

  unfoldable pub create_withdrawal : Env → CreateRequest → Action Database Uuid
  unfolding parse_payment_method
  create_withdrawal env q = do
    check_currency q
    m ← check_method q
    persist_new external_error (Aggregate.create_withdrawal env (request_with m q))

  unfoldable pub create_payment_for_booking : Env → CreateRequest → Uuid → Action Database Uuid
  unfolding parse_payment_method
  create_payment_for_booking env q booking_id = do
    check_currency q
    m ← check_method q
    persist_new internal_error
        (Aggregate.create_payment_for_booking env (request_with m q) booking_id)

  -- `create_refund`: `refund_id` is the `payment_id` of the request
  unfoldable pub create_refund : Source → Env → CreateRequest → Uuid → Action Database Uuid
  unfolding load_payment
  create_refund src env q original_payment_id = do
    check_currency q
    original ← load_payment src original_payment_id
    raise_when (decimal_gt q.amount original.amount)
        (refund_amount_exceeds_original original_payment_id original.amount q.amount q.currency)
    persist_new internal_error (refund_of env q original_payment_id)

  -- What the transition commands share: load, execute, save.
  unfoldable pub transition : Command → Source → Env → Uuid → Action Database (Unit {0})
  unfolding load_payment
  transition command src env u = do
    a ← load_payment src u
    b ← lift (map_err transition_error (execute command env a))
    save_aggregate b

  abbrev pub process_payment : Source → Env → Uuid → Action Database (Unit {0})
  process_payment = transition process_command

  abbrev pub succeed_payment : Source → Env → Uuid → Action Database (Unit {0})
  succeed_payment = transition succeed_command

  abbrev pub fail_payment : Option Text → Source → Env → Uuid → Action Database (Unit {0})
  fail_payment reason = transition (fail_command reason)

  abbrev pub cancel_payment : Source → Env → Uuid → Action Database (Unit {0})
  cancel_payment = transition cancel_command

  abbrev pub mark_payment_as_refunded : Uuid → Source → Env → Uuid → Action Database (Unit {0})
  mark_payment_as_refunded refund_id = transition (refund_command refund_id)

  -- A transition of `PaymentCommandHandler`.
  unfoldable pub handle_transition : Command → Source → Env → Uuid → Action Database (Unit {0})
  unfolding transition
  handle_transition command src env u = rethrow domain_error (transition command src env u)
