-- ===== src/Payment/Aggregate/Lifecycle.antt =====
-- The payment's state machine (src/domain/apps/payment/aggregate.py): which commands go through in
-- which status, what they leave alone, and the invariant of the object.
use microservice_payment_ser.Base.{
  ◌+◌, ◌≤◌, ◌≡◌, Option, none, some, [], ◌∷◌, ◌++◌, length, length-append, arith,
}
use microservice_payment_ser.Base.Text.{upper}
use microservice_payment_ser.Base.Decimal.{IsPositive}
use microservice_payment_ser.Errors.{Result, ok, err}
use microservice_payment_ser.Payment.Types.{
  PaymentStatus, pending, processing, succeeded, failed, cancelled, refunded,
}
use microservice_payment_ser.Payment.Events.{
  PaymentEvent, payment_processed, payment_succeeded, payment_failed, payment_cancelled,
  payment_refunded, head_of,
}
use microservice_payment_ser.Payment.Aggregate.{
  PaymentAggregate, Env, Command, process_command, succeed_command, cancel_command, fail_command,
  refund_command, execute, new_head, apply,
}

-- The state machine as a table: the status that a command leads to, where it goes through.
abbrev pub next_status : Command → PaymentStatus → Option PaymentStatus
next_status process_command pending = some processing
next_status cancel_command pending = some cancelled
next_status succeed_command pending = some succeeded
next_status succeed_command processing = some succeeded
next_status succeed_command failed = some succeeded
next_status (fail_command reason) pending = some failed
next_status (fail_command reason) processing = some failed
next_status (fail_command reason) failed = some failed
next_status (refund_command id) succeeded = some refunded
next_status _ _ = none

abbrev pub status_after : Result PaymentAggregate → Option PaymentStatus
status_after (ok b) = some b.status
status_after (err e) = none

-- Every command in every status: it goes through exactly where the table has an entry, and then
-- the payment has the status of that entry; elsewhere it raises.
pub execute-next_status :
    (c : Command) (env : Env) (a : PaymentAggregate)
    → status_after (execute c env a) ≡ next_status c a.status
unfolding execute
execute-next_status process_command env a = ground arith
execute-next_status succeed_command env a = ground arith
execute-next_status cancel_command env a = ground arith
execute-next_status (fail_command reason) env a = ground arith
execute-next_status (refund_command id) env a = ground arith

-- What no command changes.
pub record SameCore (a b : PaymentAggregate) : Type 0 where
  pub same_payment_id : b.payment_id ≡ a.payment_id
  pub same_wallet_id : b.wallet_id ≡ a.wallet_id
  pub same_user_id : b.user_id ≡ a.user_id
  pub same_amount : b.amount ≡ a.amount
  pub same_currency : b.currency ≡ a.currency
  pub same_type : b.payment_type ≡ a.payment_type
  pub same_method : b.payment_method ≡ a.payment_method
  pub same_reference : b.reference_id ≡ a.reference_id
  pub same_created_at : b.created_at ≡ a.created_at

-- The event that a command records.
abbrev pub event_of : Command → Env → PaymentAggregate → PaymentEvent
event_of process_command env a = payment_processed (new_head env a)
event_of succeed_command env a = payment_succeeded (new_head env a)
event_of cancel_command env a = payment_cancelled (new_head env a)
event_of (fail_command reason) env a = payment_failed (new_head env a) reason
event_of (refund_command id) env a = payment_refunded (new_head env a) a.amount a.currency id

pub execute-apply :
    (c : Command) (env : Env) (a b : PaymentAggregate)
    → execute c env a ≡ ok b
    → b ≡ apply (event_of c env a) a
unfolding execute
execute-apply process_command env a b h = ground arith
execute-apply succeed_command env a b h = ground arith
execute-apply cancel_command env a b h = ground arith
execute-apply (fail_command reason) env a b h = ground arith
execute-apply (refund_command id) env a b h = ground arith

pub record Records (e : PaymentEvent) (a b : PaymentAggregate) : Type 0 where
  pub counted : b.version ≡ a.version + 1
  pub stamped : b.updated_at ≡ (head_of e).occurred_at
  pub recorded : b.uncommitted_events ≡ a.uncommitted_events ++ e ∷ []
  pub about_payment : (head_of e).payment_id ≡ a.payment_id

apply_frame :
    (c : Command) (env : Env) (a : PaymentAggregate)
    → SameCore a (apply (event_of c env a) a)
      × Records (event_of c env a) a (apply (event_of c env a) a)
unfolding apply
apply_frame process_command env a = ground arith
apply_frame succeed_command env a = ground arith
apply_frame cancel_command env a = ground arith
apply_frame (fail_command reason) env a = ground arith
apply_frame (refund_command id) env a = ground arith

-- A command that goes through leaves the identity, the owner, the money, the kind and the creation
-- time of the payment as they were, and records exactly one event, about this payment.
pub execute_frame :
    (c : Command) (env : Env) (a b : PaymentAggregate)
    → execute c env a ≡ ok b
    → SameCore a b × Records (event_of c env a) a b
execute_frame c env a b h = rw (execute-apply c env a b h) (apply_frame c env a)

-- The invariant of the object.
pub record IsValid (a : PaymentAggregate) : Type 0 where
  pub positive : IsPositive a.amount
  pub upper_case : upper a.currency ≡ a.currency
  pub counted : length a.uncommitted_events ≤ a.version

-- Every command that goes through keeps the amount positive, the currency in upper case, and no
-- more events uncommitted than the version counts.
pub execute-IsValid :
    (c : Command) (env : Env) (a b : PaymentAggregate)
    → IsValid a
    → execute c env a ≡ ok b
    → IsValid b
execute-IsValid c env a b v h =
    let (same, records) = execute_frame c env a b h in
    record {
      positive = rw same.same_amount v.positive;
      upper_case = rw same.same_currency v.upper_case;
      counted = rw (records.recorded, records.counted, length-append) (omega (arith, v.counted));
    }
