-- ===== src/Repository/Tests.antt =====
-- The repository at concrete inputs: a deposit, and what follows it.
use microservice_payment_ser.Base.{◌≡◌, refl, subst, some, [], ◌∷◌, arith}
use microservice_payment_ser.Base.Text.{codes, upper}
use microservice_payment_ser.Errors.{Result, ok, err, optimistic_concurrency}
use microservice_payment_ser.Payment.Types.{deposit, paypal, succeeded, cancelled}
use microservice_payment_ser.Payment.Events.{PaymentEvent}
use microservice_payment_ser.Payment.Aggregate.{
  PaymentAggregate, succeed_command, cancel_command, run, create_payment, execute, created_event,
}
use microservice_payment_ser.Payment.Tests.{env_at, request, created_deposit, pending_payment}
use microservice_payment_ser.EventStore.{Database, Target}
use microservice_payment_ser.Payment.Aggregate.Lifecycle.{event_of}
use microservice_payment_ser.EventStore.Append.{IsFresh}
use microservice_payment_ser.Repository.{load, save, save_target}
use microservice_payment_ser.Repository.Reload
use microservice_payment_ser.Repository.Reload.{Represents, timeless, saved, save_fresh}
use microservice_payment_ser.Repository.Creation
use microservice_payment_ser.Repository.Stale
use microservice_payment_ser.Samples.{plain, empty_database, ids_from, at_load, empty-IsFresh}

pub made_of_request :
    create_payment (env_at 5) request deposit paypal (some (codes "Deposit")) ≡ ok created_deposit
unfolding create_payment upper
made_of_request = refl

create-Represents_example :
    ((save plain (ids_from 100) created_deposit empty_database).0 ≡ ok pending_payment)
    × Represents plain (save plain (ids_from 100) created_deposit empty_database).1 pending_payment
create-Represents_example =
    Creation.create-Represents plain (ids_from 100) refl (env_at 5) request deposit paypal
      (some (codes "Deposit")) created_deposit empty_database made_of_request refl
      (λ e. empty-IsFresh 100 (save_target created_deposit e) 0)

abbrev pub creation : PaymentEvent
creation = created_event (env_at 5) pending_payment

-- The tables once the deposit has been saved.
abbrev pub stored : Database
stored = saved plain (ids_from 100) created_deposit creation [] empty_database

abbrev Saved : Type 0
Saved = Result PaymentAggregate × Database

pub stored-Represents : Represents plain stored pending_payment
stored-Represents =
    subst (λ (x : Saved). Represents plain x.1 pending_payment)
      (save_fresh plain (ids_from 100) created_deposit creation [] empty_database refl refl
        (empty-IsFresh 100 (save_target created_deposit creation) 0) (omega arith))
      (Creation.create-Represents plain (ids_from 100) refl (env_at 5) request deposit paypal
        (some (codes "Deposit")) created_deposit empty_database made_of_request refl
        (λ e. empty-IsFresh 100 (save_target created_deposit e) 0)).1

-- Ids from 1000 on are new to them, and the deposit has its first version.
pub stored-IsFresh : (t : Target) → t.aggregate_id ≡ 70 → IsFresh (ids_from 1000) t 1 stored
stored-IsFresh t same = record {
  versions = λ k h. rw same (ground arith);
  row_ids = λ k h. ground arith;
  outbox_ids = λ k h. ground arith;
  rows_apart = λ j k apart e. apart (omega arith);
  outbox_apart = λ j k apart e. apart (omega arith);
}

-- Other payments are unknown to them.
pub stored-IsFresh_other : (t : Target) → t.aggregate_id ≡ 71 → IsFresh (ids_from 1000) t 0 stored
stored-IsFresh_other t same = record {
  versions = λ k h. rw same (ground arith);
  row_ids = λ k h. ground arith;
  outbox_ids = λ k h. ground arith;
  rows_apart = λ j k apart e. apart (omega arith);
  outbox_apart = λ j k apart e. apart (omega arith);
}

load-Represents_example :
    (b : PaymentAggregate) × (load plain at_load 70 stored ≡ ok b)
    × (timeless b ≡ timeless pending_payment)
    × (b.version ≡ 1)
    × (b.uncommitted_events ≡ [])
load-Represents_example =
    Reload.load-Represents plain stored pending_payment at_load stored-Represents

abbrev succeeded_deposit : PaymentAggregate
succeeded_deposit = record pending_payment {
  status = succeeded;
  updated_at = 8;
  version = 2;
  uncommitted_events = event_of succeed_command (env_at 8) pending_payment ∷ [];
}

abbrev cancelled_deposit : PaymentAggregate
cancelled_deposit = record pending_payment {
  status = cancelled;
  updated_at = 9;
  version = 2;
  uncommitted_events = event_of cancel_command (env_at 9) pending_payment ∷ [];
}

succeed_goes_through : run ((succeed_command, env_at 8) ∷ []) pending_payment ≡ ok succeeded_deposit
unfolding run execute
succeed_goes_through = refl

save-Represents_example :
    let popped = record succeeded_deposit { uncommitted_events = [] } in
    ((save plain (ids_from 1000) succeeded_deposit stored).0 ≡ ok popped)
    × Represents plain (save plain (ids_from 1000) succeeded_deposit stored).1 popped
save-Represents_example =
    Reload.save-Represents plain (ids_from 1000) refl ((succeed_command, env_at 8) ∷ [])
      pending_payment succeeded_deposit stored stored-Represents refl succeed_goes_through
      (λ e. stored-IsFresh (save_target succeeded_deposit e) refl)

second_save_refused_example :
    let after = (save plain (ids_from 1000) succeeded_deposit stored).1 in
    ((save plain (ids_from 1000) succeeded_deposit stored).0
      ≡ ok (record succeeded_deposit { uncommitted_events = [] }))
    × (save plain (ids_from 2000) cancelled_deposit after
        ≡ (err (optimistic_concurrency 70 1 2), after))
second_save_refused_example =
    Stale.second_save_refused plain (ids_from 1000) (ids_from 2000) 1 succeeded_deposit
      cancelled_deposit (event_of succeed_command (env_at 8) pending_payment)
      (event_of cancel_command (env_at 9) pending_payment) [] [] stored refl refl refl refl refl
      refl
      (stored-IsFresh
        (save_target succeeded_deposit (event_of succeed_command (env_at 8) pending_payment)) refl)
