-- ===== src/Commands/Tests.antt =====
-- The payment commands at concrete inputs: the tables that hold one deposit.
use microservice_payment_ser.Base.{◌+◌, ◌≡◌, refl, true, false, none, some, [], ◌∷◌}
use microservice_payment_ser.Base.Text.{codes, is_blank, upper}
use microservice_payment_ser.Base.Decimal.{pos, decimal_gt}
use microservice_payment_ser.Errors.{Uuid, Error, Result, ok, err, is_payment_domain_error}
use microservice_payment_ser.Payment.Types.{refund, wallet, succeeded}
use microservice_payment_ser.Payment.Aggregate
use microservice_payment_ser.Payment.Aggregate.{
  PaymentAggregate, Env, succeed_command, refund_command, created_event,
}
use microservice_payment_ser.Payment.Aggregate.Factories.{IsNew}
use microservice_payment_ser.Payment.Tests.{env_at, pending_payment, ten_euros}
use microservice_payment_ser.EventStore.{Database}
use microservice_payment_ser.Repository.{save, load, save_target}
use microservice_payment_ser.Repository.Reload.{Represents}
use microservice_payment_ser.Repository.Tests.{
  stored, stored-Represents, stored-IsFresh, stored-IsFresh_other,
}
use microservice_payment_ser.Samples.{plain, ids_from, at_load}
use microservice_payment_ser.Commands.{
  CreateRequest, request_with, create_refund, refund_of, transition,
}
use microservice_payment_ser.Commands.Transitions
use microservice_payment_ser.Commands.Refunds

abbrev succeeding : Result (Unit {0}) × Database
succeeding = transition plain (ids_from 1000) succeed_command at_load (env_at 8) 70 stored

transition_commits_example :
    (succeeding.0 ≡ ok tt)
    × ((d : PaymentAggregate) × (d.payment_id ≡ 70)
        × (d.status ≡ succeeded)
        × (d.amount ≡ ten_euros)
        × (d.version ≡ 1 + 1)
        × Represents plain succeeding.1 d)
transition_commits_example =
    Transitions.transition_commits plain (ids_from 1000) succeed_command at_load (env_at 8)
      pending_payment succeeded stored refl stored-Represents refl
      (λ e. stored-IsFresh (save_target pending_payment e) refl)

abbrev refunding_too_early : Result (Unit {0}) × Database
refunding_too_early =
    transition plain (ids_from 1000) (refund_command 99) at_load (env_at 8) 70 stored

transition_refused_example :
    ((x : Error) × (refunding_too_early.0 ≡ err x) × (is_payment_domain_error x ≡ true))
    × (refunding_too_early.1 ≡ stored)
transition_refused_example =
    Transitions.transition_refused plain (ids_from 1000) (refund_command 99) at_load (env_at 8)
      pending_payment stored stored-Represents refl

early_refund : (x : Error) × (refunding_too_early.0 ≡ err x) × (is_payment_domain_error x ≡ true)
early_refund =
    (Transitions.transition_refused plain (ids_from 1000) (refund_command 99) at_load (env_at 8)
      pending_payment stored stored-Represents refl).0

transition_all_or_nothing_example : refunding_too_early.1 ≡ stored
transition_all_or_nothing_example =
    Transitions.transition_all_or_nothing plain (ids_from 1000) (refund_command 99) at_load
      (env_at 8) 70 early_refund.0 stored early_refund.1

abbrev pub refund_request : CreateRequest
refund_request = record {
  wallet_id = 1;
  user_id = 2;
  amount = record { coefficient = pos 400; scale = 2 };
  currency = codes "eur";
  payment_method = [];
  reference_id = none;
  description = none;
  payment_id = some 71;
}

abbrev too_much : CreateRequest
too_much = record refund_request { amount = record { coefficient = pos 1001; scale = 2 } }

abbrev refund_payment : PaymentAggregate
refund_payment =
    let a = record pending_payment {
      payment_id = 71;
      amount = refund_request.amount;
      payment_type = refund;
      payment_method = wallet;
      reference_id = some 70;
      description = some (codes "Refund");
    } in
    record a { uncommitted_events = created_event (env_at 5) a ∷ [] }

refund_made : refund_of (env_at 5) refund_request 70 ≡ ok refund_payment
unfolding Aggregate.create_refund upper
refund_made = refl

named : is_blank (codes "eur") ≡ false
unfolding is_blank
named = refl

abbrev pub refunding : Result Uuid × Database
refunding = create_refund plain (ids_from 1000) at_load (env_at 5) refund_request 70 stored

pub created_refund :
    (refunding.0 ≡ ok 71)
    × Represents plain refunding.1 (record refund_payment { uncommitted_events = [] })
created_refund =
    Refunds.refund_commits plain (ids_from 1000) at_load (env_at 5) refund_request 70
      pending_payment refund_payment stored refl named stored-Represents refl refl refund_made refl
      (λ e. stored-IsFresh_other (save_target refund_payment e) refl)

refund_commits_example :
    (refunding.0 ≡ ok 71)
    × Represents plain refunding.1 (record refund_payment { uncommitted_events = [] })
refund_commits_example =
    Refunds.refund_commits plain (ids_from 1000) at_load (env_at 5) refund_request 70
      pending_payment refund_payment stored refl named stored-Represents refl refl refund_made refl
      (λ e. stored-IsFresh_other (save_target refund_payment e) refl)

refund_bounded_example :
    (a r : PaymentAggregate) × (load plain at_load 70 stored ≡ ok a)
    × (decimal_gt refund_request.amount a.amount ≡ false)
    × (refund_of (env_at 5) refund_request 70 ≡ ok r)
    × (r.payment_id ≡ 71)
    × IsNew (request_with wallet refund_request) refund r
    × (r.reference_id ≡ some 70)
    × (r.payment_method ≡ wallet)
    × (refunding.1 ≡ (save plain (ids_from 1000) r stored).1)
refund_bounded_example =
    Refunds.refund_bounded plain (ids_from 1000) at_load (env_at 5) refund_request 70 71 stored
      created_refund.0
