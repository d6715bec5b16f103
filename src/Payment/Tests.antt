-- ===== src/Payment/Tests.antt =====
-- The payment domain at concrete inputs.
use microservice_payment_ser.Base.{
  ℕ, ◌+◌, ◌≡◌, refl, none, some, List, [], ◌∷◌, ◌++◌, length, arith,
}
use microservice_payment_ser.Base.Text.{codes, upper}
use microservice_payment_ser.Base.Decimal.{Decimal, pos, negsuc}
use microservice_payment_ser.Errors.{ok, err, payment_already_processed}
use microservice_payment_ser.Payment.Types.{
  pending, succeeded, refunded, cancelled, deposit, refund, wallet, paypal, status_value,
}
use microservice_payment_ser.Payment.Types
use microservice_payment_ser.Payment.Events.{PaymentEvent}
use microservice_payment_ser.Payment.Aggregate.{
  PaymentAggregate, PaymentRequest, Env, Command, process_command, succeed_command, cancel_command,
  refund_command, execute, run, create_deposit, create_refund, created_event,
}
use microservice_payment_ser.Payment.Aggregate.Lifecycle
use microservice_payment_ser.Payment.Aggregate.Lifecycle.{
  next_status, status_after, SameCore, Records, event_of, IsValid,
}
use microservice_payment_ser.Payment.Older.{Payment, perform, perform_all}
use microservice_payment_ser.Payment.Older.Agreement
use microservice_payment_ser.Payment.Older.Agreement.{
  payment_of, end_of, end_of_aggregate, view_of, view_of_aggregate,
}
use microservice_payment_ser.Payment.Aggregate.Sourcing
use microservice_payment_ser.Payment.Aggregate.Sourcing.{bare, replay}

abbrev pub ten_euros : Decimal
ten_euros = record { coefficient = pos 1000; scale = 2 }

abbrev pub env_at : ℕ → Env
env_at t = record { fresh_id = 70; event_id = 500 + t; now = t }

abbrev pub request : PaymentRequest
request = record {
  wallet_id = 1;
  user_id = 2;
  amount = ten_euros;
  currency = codes "eur";
  payment_method = paypal;
  reference_id = none;
  description = none;
  payment_id = none;
}

abbrev pub pending_payment : PaymentAggregate
pending_payment = record {
  payment_id = 70;
  wallet_id = 1;
  user_id = 2;
  amount = ten_euros;
  currency = codes "EUR";
  payment_type = deposit;
  payment_method = paypal;
  status = pending;
  reference_id = none;
  description = some (codes "Deposit");
  created_at = 5;
  updated_at = 5;
  version = 1;
  uncommitted_events = [];
}

abbrev succeeded_payment : PaymentAggregate
succeeded_payment = record pending_payment { status = succeeded; version = 2 }

abbrev settle_and_refund : List (Command × Env)
settle_and_refund = (succeed_command, env_at 8) ∷ (refund_command 99, env_at 9) ∷ []

-- A refunded payment cannot be cancelled.
cancel_refunded :
    execute cancel_command (env_at 9) (record pending_payment { status = refunded })
    ≡ err (payment_already_processed 70 (status_value refunded))
unfolding execute
cancel_refunded = refl

execute-next_status_example :
    status_after (execute cancel_command (env_at 9) succeeded_payment) ≡ none
execute-next_status_example =
    Lifecycle.execute-next_status cancel_command (env_at 9) succeeded_payment

abbrev after_process : PaymentAggregate
after_process = record pending_payment {
  status = Types.processing;
  updated_at = 9;
  version = 2;
  uncommitted_events = event_of process_command (env_at 9) pending_payment ∷ [];
}

process_goes_through : execute process_command (env_at 9) pending_payment ≡ ok after_process
unfolding execute
process_goes_through = refl

pub pending_payment-IsValid : IsValid pending_payment
unfolding upper
pending_payment-IsValid = record { positive = refl; upper_case = refl; counted = omega arith }

abbrev after_settling : PaymentAggregate
after_settling = record pending_payment {
  status = refunded;
  updated_at = 9;
  version = 3;
  uncommitted_events =
      event_of succeed_command (env_at 8) pending_payment
      ∷ event_of (refund_command 99) (env_at 9) pending_payment
      ∷ [];
}

settling_goes_through : run settle_and_refund pending_payment ≡ ok after_settling
unfolding run execute
settling_goes_through = refl

run-replay_example :
    (es : List PaymentEvent) × (after_settling.uncommitted_events
      ≡ pending_payment.uncommitted_events ++ es)
    × (after_settling.version ≡ pending_payment.version + length es)
    × (bare after_settling ≡ replay es (bare pending_payment))
run-replay_example =
    Sourcing.run-replay settle_and_refund pending_payment after_settling settling_goes_through

abbrev pub created_deposit : PaymentAggregate
created_deposit = record pending_payment {
  uncommitted_events = created_event (env_at 5) pending_payment ∷ [];
}

deposit_goes_through : create_deposit (env_at 5) request ≡ ok created_deposit
unfolding create_deposit upper
deposit_goes_through = refl

abbrev created_refund : PaymentAggregate
created_refund =
    let a = record pending_payment {
      payment_type = refund;
      payment_method = wallet;
      reference_id = some 33;
      description = some (codes "Refund");
    } in
    record a { uncommitted_events = created_event (env_at 5) a ∷ [] }

refund_goes_through : create_refund (env_at 5) request 33 ≡ ok created_refund
unfolding create_refund upper
refund_goes_through = refl

abbrev negative_request : PaymentRequest
negative_request = record request { amount = record { coefficient = negsuc 4; scale = 2 } }

lives_agree_example :
    (end_of (perform_all settle_and_refund (payment_of pending_payment))
      ≡ end_of_aggregate (run settle_and_refund pending_payment))
    × (view_of (λ d. codes "10.00") (perform_all settle_and_refund (payment_of pending_payment))
        ≡ view_of_aggregate (λ d. codes "10.00") (run settle_and_refund pending_payment))
lives_agree_example = Agreement.lives_agree (λ d. codes "10.00") settle_and_refund pending_payment

abbrev refunded_older : Payment
refunded_older = record (payment_of pending_payment) { status = refunded; updated_at = 9 }

older_settles : perform_all settle_and_refund (payment_of pending_payment) ≡ ok refunded_older
unfolding perform_all perform
older_settles = refl
