-- ===== src/Payment/Older.antt =====
-- The class `Payment` of src/domain/apps/payment/models.py, the payment before events: an object
-- that its methods change in place. A method returns the object as it leaves it, or the exception
-- that it raises before it has changed anything.
use microservice_payment_ser.Base.{
  ◌≡◌, Bool, true, false, not, Option, none, some, List, [], ◌∷◌, if◌then◌else◌,
}
use microservice_payment_ser.Base.Text.{Text, codes, upper}
use microservice_payment_ser.Base.Decimal.{Decimal, decimal_zero, decimal_le}
use microservice_payment_ser.Errors.{
  Uuid, Time, Result, ok, err, ◌>>=◌, ◌>>◌, raise_if, invalid_payment_amount,
  payment_already_processed, payment_not_processable,
}
use microservice_payment_ser.Payment.Types.{
  PaymentStatus, PaymentType, PaymentMethod, pending, processing, succeeded, failed, cancelled,
  refunded, deposit, withdrawal, refund, wallet, status_value, type_value, method_value, is_pending,
}
use microservice_payment_ser.Payment.Aggregate.{
  Env, PaymentRequest, or_text, or_uuid, failed_description, Command, process_command,
  succeed_command, cancel_command, fail_command, refund_command,
}
use microservice_payment_ser.Executor.{PaymentView}
pub mod Agreement

pub record Payment : Type 0 where
  pub payment_id : Uuid
  pub wallet_id : Uuid
  pub user_id : Uuid
  pub amount : Decimal
  pub currency : Text
  pub payment_type : PaymentType
  pub payment_method : PaymentMethod
  pub reference_id : Option Uuid
  pub description : Option Text
  pub status : PaymentStatus
  pub created_at : Time
  pub updated_at : Time

-- `__init__` with the status, the id and the timestamps that the factories leave to their defaults
unfoldable pub init : Env → PaymentRequest → PaymentType → Result Payment
init env r type = do
  raise_if (decimal_le r.amount decimal_zero) (invalid_payment_amount r.amount)
  ok (record {
    payment_id = or_uuid r.payment_id env.fresh_id;
    wallet_id = r.wallet_id;
    user_id = r.user_id;
    amount = r.amount;
    currency = upper r.currency;
    payment_type = type;
    payment_method = r.payment_method;
    reference_id = r.reference_id;
    description = r.description;
    status = pending;
    created_at = env.now;
    updated_at = env.now;
  })

-- The factories take no id: the `payment_id` of the request is not read.
unfoldable pub validate_and_create : Env → PaymentRequest → PaymentType → Result Payment
unfolding init
validate_and_create env r type = init env (record r { payment_id = none }) type

unfoldable pub make_deposit : Env → PaymentRequest → Result Payment
unfolding validate_and_create
make_deposit env r = validate_and_create env r deposit

unfoldable pub make_withdrawal : Env → PaymentRequest → Result Payment
unfolding validate_and_create
make_withdrawal env r = validate_and_create env r withdrawal

-- the original payment is the reference, and the method is always the wallet
unfoldable pub make_refund : Env → PaymentRequest → Uuid → Result Payment
unfolding init
make_refund env r original_payment_id = do
  raise_if (decimal_le r.amount decimal_zero) (invalid_payment_amount r.amount)
  init env
      (record r {
        payment_id = none;
        currency = upper r.currency;
        payment_method = wallet;
        reference_id = some original_payment_id;
        description = some (or_text r.description (codes "Refund"));
      })
      refund

unfoldable pub check_pending : Payment → Result (Unit {0})
unfolding is_pending
check_pending p =
    raise_if (not (is_pending p.status))
      (payment_already_processed p.payment_id (status_value p.status))

abbrev pub status_error : Uuid → PaymentStatus → Result (Unit {0})
status_error u succeeded = err (payment_already_processed u (status_value succeeded))
status_error u refunded = err (payment_already_processed u (status_value refunded))
status_error u cancelled = err (payment_not_processable u (codes "cancelled") (codes "process"))
status_error u _ = ok tt

unfoldable pub check_processable : Payment → Result (Unit {0})
check_processable p = status_error p.payment_id p.status

abbrev is_succeeded : PaymentStatus → Bool
is_succeeded succeeded = true
is_succeeded _ = false

unfoldable pub mark_processing : Time → Payment → Result Payment
unfolding check_pending
mark_processing now p = do check_pending p; ok (record p { status = processing; updated_at = now })

unfoldable pub mark_succeeded : Time → Payment → Result Payment
unfolding check_processable
mark_succeeded now p = do
  check_processable p
  ok (record p { status = succeeded; updated_at = now })

unfoldable pub mark_failed : Time → Option Text → Payment → Result Payment
unfolding check_processable failed_description
mark_failed now reason p = do
  check_processable p
  ok (record p {
    status = failed;
    description = failed_description p.description reason;
    updated_at = now;
  })

unfoldable pub mark_cancelled : Time → Payment → Result Payment
unfolding is_pending
mark_cancelled now p = do
  raise_if (not (is_pending p.status))
      (payment_not_processable p.payment_id (status_value p.status) (codes "cancel"))
  ok (record p { status = cancelled; updated_at = now })

unfoldable pub mark_refunded : Time → Payment → Result Payment
mark_refunded now p = do
  raise_if (not (is_succeeded p.status))
      (payment_not_processable p.payment_id (status_value p.status) (codes "refund"))
  ok (record p { status = refunded; updated_at = now })

-- The method that answers a command of the aggregate, at the time of that command.
unfoldable pub perform : Command → Time → Payment → Result Payment
unfolding mark_processing mark_succeeded mark_failed mark_cancelled mark_refunded
perform process_command now p = mark_processing now p
perform succeed_command now p = mark_succeeded now p
perform cancel_command now p = mark_cancelled now p
perform (fail_command reason) now p = mark_failed now reason p
perform (refund_command refund_id) now p = mark_refunded now p

unfoldable pub perform_all : List (Command × Env) → Payment → Result Payment
perform_all [] p = ok p
perform_all ((c, env) ∷ rest) p = do q ← perform c env.now p; perform_all rest q

-- `to_view`, with `str` of the amount
unfoldable pub payment_to_view : (Decimal → Text) → Payment → PaymentView
payment_to_view printed p = record {
  payment_id = p.payment_id;
  wallet_id = p.wallet_id;
  user_id = p.user_id;
  amount = printed p.amount;
  currency = p.currency;
  payment_type = type_value p.payment_type;
  payment_method = method_value p.payment_method;
  status = status_value p.status;
  reference_id = p.reference_id;
  description = p.description;
  created_at = p.created_at;
  updated_at = p.updated_at;
}
