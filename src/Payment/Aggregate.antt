-- ===== src/Payment/Aggregate.antt =====
-- `PaymentAggregate` of src/domain/apps/payment/aggregate.py: its state, the event handlers, the
-- factories and the commands. A method returns the object as it leaves it, or the exception that it
-- raises; every guard stands before the first write, so a raise leaves the object alone.
use microservice_payment_ser.Base.{
  ℕ, suc, ◌+◌, ◌≡◌, Bool, true, false, not, Option, none, some, List, [], ◌∷◌, ◌++◌, length, ltb,
  if◌then◌else◌,
}
use microservice_payment_ser.Base.Text.{Text, codes, is_empty, strip, upper}
use microservice_payment_ser.Base.Decimal.{Decimal, decimal_zero, decimal_le}
use microservice_payment_ser.Errors.{
  Uuid, Time, Error, Result, ok, err, ◌>>=◌, ◌>>◌, raise_if, invalid_payment_amount,
  payment_already_processed, payment_not_processable, payment_method_not_supported,
}
use microservice_payment_ser.Payment.Types.{
  PaymentStatus, PaymentType, PaymentMethod, pending, processing, succeeded, failed, cancelled,
  refunded, deposit, withdrawal, payment, refund, wallet, status_value, type_value, method_value,
  is_pending,
}
use microservice_payment_ser.Payment.Events.{
  EventHead, CreatedFields, PaymentEvent, payment_created, payment_processed, payment_succeeded,
  payment_failed, payment_cancelled, payment_refunded, head_of,
}
pub mod Lifecycle
pub mod Factories
pub mod Traces
pub mod Sourcing

pub record PaymentAggregate : Type 0 where
  pub payment_id : Uuid
  pub wallet_id : Uuid
  pub user_id : Uuid
  pub amount : Decimal
  pub currency : Text
  pub payment_type : PaymentType
  pub payment_method : PaymentMethod
  pub status : PaymentStatus
  pub reference_id : Option Uuid
  pub description : Option Text
  pub created_at : Time
  pub updated_at : Time
  pub version : ℕ
  pub uncommitted_events : List PaymentEvent

-- What one call draws from `uuid4` (for a payment and for an event) and from the clock.
pub record Env : Type 0 where
  pub fresh_id : Uuid
  pub event_id : Uuid
  pub now : Time

-- The keyword arguments of the factories.
pub record PaymentRequest : Type 0 where
  pub wallet_id : Uuid
  pub user_id : Uuid
  pub amount : Decimal
  pub currency : Text
  pub payment_method : PaymentMethod
  pub reference_id : Option Uuid
  pub description : Option Text
  pub payment_id : Option Uuid

-- `__post_init__`
unfoldable pub post_init : PaymentAggregate → Result PaymentAggregate
post_init a =
    if decimal_le a.amount decimal_zero
    then err (invalid_payment_amount a.amount)
    else ok (record a { currency = upper a.currency })

-- `text or default`
abbrev pub or_text : Option Text → Text → Text
or_text none d = d
or_text (some s) d = if is_empty s then d else s

-- `id or uuid4()`: a UUID is always true
abbrev pub or_uuid : Option Uuid → Uuid → Uuid
or_uuid none d = d
or_uuid (some u) d = u

-- `if event.failure_reason: description = f"{description or ''} [FAILED: {reason}]".strip()`
unfoldable pub failed_description : Option Text → Option Text → Option Text
failed_description d none = d
failed_description d (some reason) =
    if is_empty reason
    then d
    else some (strip (or_text d [] ++ (codes " [FAILED: " ++ (reason ++ codes "]"))))

-- The handlers `when_<event class>`.
unfoldable pub when_handler : PaymentEvent → PaymentAggregate → PaymentAggregate
when_handler (payment_created h f) a = record a { created_at = h.occurred_at }
when_handler (payment_processed h) a = record a { status = processing }
when_handler (payment_succeeded h) a = record a { status = succeeded }
when_handler (payment_failed h reason) a = record a {
  status = failed;
  description = failed_description a.description reason;
}
when_handler (payment_cancelled h) a = record a { status = cancelled }
when_handler (payment_refunded h amount currency refund_id) a = record a { status = refunded }

-- `when`: the handler, then the timestamp of the event, which every event has
unfoldable pub when : PaymentEvent → PaymentAggregate → PaymentAggregate
unfolding when_handler
when e a = record (when_handler e a) { updated_at = (head_of e).occurred_at }

-- `_apply`
unfoldable pub apply : PaymentEvent → PaymentAggregate → PaymentAggregate
unfolding when
apply e a = record (when e a) {
  uncommitted_events = a.uncommitted_events ++ e ∷ [];
  version = a.version + 1;
}

abbrev pub new_head : Env → PaymentAggregate → EventHead
new_head env a = record {
  event_id = env.event_id;
  occurred_at = env.now;
  schema_version = 1;
  payment_id = a.payment_id;
  wallet_id = a.wallet_id;
  user_id = a.user_id;
}

abbrev pub created_fields : PaymentAggregate → CreatedFields
created_fields a = record {
  amount = a.amount;
  currency = a.currency;
  payment_type = type_value a.payment_type;
  payment_method = method_value a.payment_method;
  reference_id = a.reference_id;
  description = a.description;
}

-- The `PaymentCreatedEvent` that `_create_payment` and `create_refund` apply.
abbrev pub created_event : Env → PaymentAggregate → PaymentEvent
created_event env a = payment_created (new_head env a) (created_fields a)

-- `_create_payment`; `create_refund` has the same body with its own type and method
unfoldable pub create_payment :
    Env → PaymentRequest → PaymentType → PaymentMethod → Option Text → Result PaymentAggregate
unfolding post_init apply
create_payment env r type method description = do
  a ← post_init (record {
    payment_id = or_uuid r.payment_id env.fresh_id;
    wallet_id = r.wallet_id;
    user_id = r.user_id;
    amount = r.amount;
    currency = upper r.currency;
    payment_type = type;
    payment_method = method;
    status = pending;
    reference_id = r.reference_id;
    description = description;
    created_at = env.now;
    updated_at = env.now;
    version = 0;
    uncommitted_events = [];
  })
  ok (apply (created_event env a) a)

abbrev pub is_wallet : PaymentMethod → Bool
is_wallet wallet = true
is_wallet _ = false

unfoldable pub create_deposit : Env → PaymentRequest → Result PaymentAggregate
unfolding create_payment
create_deposit env r = do
  raise_if (is_wallet r.payment_method)
      (payment_method_not_supported (codes "wallet") (codes "external deposit"))
  create_payment env r deposit r.payment_method (some (or_text r.description (codes "Deposit")))

unfoldable pub create_withdrawal : Env → PaymentRequest → Result PaymentAggregate
unfolding create_payment
create_withdrawal env r = do
  raise_if (is_wallet r.payment_method)
      (payment_method_not_supported (codes "wallet") (codes "external withdrawal"))
  create_payment env r withdrawal r.payment_method
      (some (or_text r.description (codes "Withdrawal")))

-- the booking is the reference
unfoldable pub create_payment_for_booking : Env → PaymentRequest → Uuid → Result PaymentAggregate
unfolding create_payment
create_payment_for_booking env r booking_id =
    create_payment env (record r { reference_id = some booking_id }) payment r.payment_method
      (some (or_text r.description (codes "Booking payment")))

-- the original payment is the reference, and the method is always the wallet; `payment_id` of the
-- request is `refund_id`
unfoldable pub create_refund : Env → PaymentRequest → Uuid → Result PaymentAggregate
unfolding create_payment
create_refund env r original_payment_id = do
  raise_if (decimal_le r.amount decimal_zero) (invalid_payment_amount r.amount)
  create_payment env (record r { reference_id = some original_payment_id }) refund wallet
      (some (or_text r.description (codes "Refund")))

-- `_ensure_pending`
unfoldable pub ensure_pending : PaymentAggregate → Result (Unit {0})
unfolding is_pending
ensure_pending a =
    raise_if (not (is_pending a.status))
      (payment_already_processed a.payment_id (status_value a.status))

abbrev processable_error : Uuid → PaymentStatus → Result (Unit {0})
processable_error u succeeded = err (payment_already_processed u (status_value succeeded))
processable_error u refunded = err (payment_already_processed u (status_value refunded))
processable_error u cancelled =
    err (payment_not_processable u (codes "cancelled") (codes "process"))
processable_error u _ = ok tt

-- `_ensure_processable`
unfoldable pub ensure_processable : PaymentAggregate → Result (Unit {0})
ensure_processable a = processable_error a.payment_id a.status

abbrev is_succeeded : PaymentStatus → Bool
is_succeeded succeeded = true
is_succeeded _ = false

-- `_ensure_succeeded`
unfoldable pub ensure_succeeded : PaymentAggregate → Result (Unit {0})
ensure_succeeded a =
    raise_if (not (is_succeeded a.status))
      (payment_not_processable a.payment_id (status_value a.status) (codes "refund"))

unfoldable pub process : Env → PaymentAggregate → Result PaymentAggregate
unfolding ensure_pending apply
process env a = do ensure_pending a; ok (apply (payment_processed (new_head env a)) a)

unfoldable pub succeed : Env → PaymentAggregate → Result PaymentAggregate
unfolding ensure_processable apply
succeed env a = do ensure_processable a; ok (apply (payment_succeeded (new_head env a)) a)

unfoldable pub fail : Env → Option Text → PaymentAggregate → Result PaymentAggregate
unfolding ensure_processable apply
fail env reason a = do ensure_processable a; ok (apply (payment_failed (new_head env a) reason) a)

unfoldable pub cancel : Env → PaymentAggregate → Result PaymentAggregate
unfolding ensure_pending apply
cancel env a = do ensure_pending a; ok (apply (payment_cancelled (new_head env a)) a)

unfoldable pub mark_as_refunded : Env → Uuid → PaymentAggregate → Result PaymentAggregate
unfolding ensure_succeeded apply
mark_as_refunded env refund_id a = do
  ensure_succeeded a
  ok (apply (payment_refunded (new_head env a) a.amount a.currency refund_id) a)

-- `pop_events`: the events, and the object without them
unfoldable pub pop_events : PaymentAggregate → List PaymentEvent × PaymentAggregate
pop_events a = (a.uncommitted_events, record a { uncommitted_events = [] })

unfoldable pub has_uncommitted_events : PaymentAggregate → Bool
has_uncommitted_events a = ltb 0 (length a.uncommitted_events)

-- A command method with its arguments.
pub data Command : Type 0 where
  process_command succeed_command cancel_command : Command
  fail_command : Option Text → Command
  refund_command : Uuid → Command

unfoldable pub execute : Command → Env → PaymentAggregate → Result PaymentAggregate
unfolding process succeed fail cancel mark_as_refunded
execute process_command env a = process env a
execute succeed_command env a = succeed env a
execute cancel_command env a = cancel env a
execute (fail_command reason) env a = fail env reason a
execute (refund_command refund_id) env a = mark_as_refunded env refund_id a

-- A life of a payment: commands one after the other; the first that raises ends it.
unfoldable pub run : List (Command × Env) → PaymentAggregate → Result PaymentAggregate
run [] a = ok a
run ((c, env) ∷ rest) a = do b ← execute c env a; run rest b
