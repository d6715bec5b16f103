-- ===== src/EventStore/Tests.antt =====
-- The event store at concrete inputs.
use microservice_payment_ser.Base.{◌≡◌, refl, [], ◌∷◌, ◌++◌, none, some}
use microservice_payment_ser.Errors.{ok, err, optimistic_concurrency}
use microservice_payment_ser.Payment.Tests.{created_deposit, pending_payment}
use microservice_payment_ser.EventStore.{Target, append}
use microservice_payment_ser.EventStore.Append
use microservice_payment_ser.EventStore.Append.{rows_for, outbox_after}
use microservice_payment_ser.EventStore.Rebuild.{
  apply_rows, apply_row, order_by_time, payment_rows, rebuild, enabled,
}
use microservice_payment_ser.EventStore.Rebuild.Incremental
use microservice_payment_ser.Payment.Aggregate.{created_fields}
use microservice_payment_ser.Payment.Events.{head_of}
use microservice_payment_ser.Projection.{created_row, project}
use microservice_payment_ser.Payment.Events.Registry.{normalize_payment_event_type}
use microservice_payment_ser.Payment.Events.Serial.{
  event_from_dict, from_dict, base_from_dict, to_dict, created_from_dict,
}
use microservice_payment_ser.Projection.Runner.{Projections}
use microservice_payment_ser.Repository.{save_target}
use microservice_payment_ser.Repository.Tests.{creation, stored}
use microservice_payment_ser.Samples.{plain, empty_database, ids_from, empty-IsFresh}

abbrev target : Target
target = save_target created_deposit creation

append_commits_example : append plain (ids_from 100) target (creation ∷ []) empty_database ≡ (
  ok tt,
  record empty_database {
    events = [] ++ rows_for plain (ids_from 100) target (creation ∷ []) 0;
    outbox = outbox_after plain (ids_from 100) target (creation ∷ []) 0 [];
  },
)
append_commits_example =
    Append.append_commits plain (ids_from 100) target refl (creation ∷ []) empty_database
      (empty-IsFresh 100 target 0)

conflict :
    append plain (ids_from 1000) target (creation ∷ []) stored
    ≡ (err (optimistic_concurrency 70 0 1), stored)
conflict = Append.append_conflict plain (ids_from 1000) target creation [] stored refl

abbrev projected : Projections
projected =
    enabled (created_row (head_of creation) (created_fields pending_payment) ∷ []) (some 101)

applied : apply_rows plain 3 20 (payment_rows stored) (enabled [] none) ≡ (ok tt, projected)
unfolding apply_rows order_by_time apply_row event_from_dict normalize_payment_event_type from_dict
    base_from_dict to_dict created_from_dict project
applied = refl

rebuild-apply_rows_example :
    rebuild plain 3 20 stored ≡ (ok tt, record stored { projections = projected })
rebuild-apply_rows_example = Incremental.rebuild-apply_rows plain 3 20 stored projected applied
