-- ===== src/Projection/Tests.antt =====
-- The read model at concrete inputs.
use microservice_payment_ser.Base.{◌≡◌, refl, ◌≢◌, none, some, [], ◌∷◌}
use microservice_payment_ser.Base.Text.{codes}
use microservice_payment_ser.Errors.{Uuid, ok, err, projection_invariant_violation}
use microservice_payment_ser.Payment.Types.{PaymentStatus, pending, failed, succeeded}
use microservice_payment_ser.Payment.Aggregate.{PaymentAggregate, succeed_command, execute}
use microservice_payment_ser.Payment.Aggregate.Lifecycle.{event_of}
use microservice_payment_ser.Payment.Tests.{env_at, pending_payment, ten_euros}
use microservice_payment_ser.Projection.{ReadModel, ReadModels, find_row, project}
use microservice_payment_ser.Projection.Laws
use microservice_payment_ser.Projection.Laws.{row_status, Shows}

abbrev row_of : Uuid → PaymentStatus → ReadModel
row_of id status = record {
  id = id;
  wallet_id = 1;
  user_id = 2;
  amount = ten_euros;
  currency = codes "EUR";
  payment_type = codes "deposit";
  payment_method = codes "paypal";
  status = status;
  reference_id = none;
  description = none;
}

abbrev rows_with : PaymentStatus → ReadModels
rows_with status = row_of 69 pending ∷ row_of 70 status ∷ []

abbrev in_status : PaymentStatus → PaymentStatus → PaymentAggregate
in_status old new = record pending_payment {
  status = new;
  updated_at = 8;
  version = 2;
  uncommitted_events =
      event_of succeed_command (env_at 8) (record pending_payment { status = old }) ∷ [];
}

abbrev failed_payment : PaymentAggregate
failed_payment = record pending_payment { status = failed }

pending_succeeds :
    execute succeed_command (env_at 8) pending_payment ≡ ok (in_status pending succeeded)
unfolding execute
pending_succeeds = refl

failed_succeeds :
    execute succeed_command (env_at 8) failed_payment ≡ ok (in_status failed succeeded)
unfolding execute
failed_succeeds = refl

project_follows_example :
    let after = project (event_of succeed_command (env_at 8) pending_payment) (rows_with pending) in
    (after.0 ≡ ok tt)
    × (row_status 70 after.1 ≡ some succeeded)
    × ((w : Uuid) → w ≢ 70 → find_row w after.1 ≡ find_row w (rows_with pending))
project_follows_example =
    Laws.project_follows succeed_command (env_at 8) pending_payment (in_status pending succeeded)
      (rows_with pending) pending_succeeds
      (record { row = row_of 70 pending; found = refl; in_status = refl }) (λ e. cc)

failed_not_projected_example :
    project (event_of succeed_command (env_at 8) failed_payment) (rows_with failed)
    ≡ (err (projection_invariant_violation 70), rows_with failed)
failed_not_projected_example =
    Laws.failed_not_projected succeed_command (env_at 8) failed_payment (in_status failed succeeded)
      (rows_with failed) failed_succeeds (refl, (refl, tt))
      (record { row = row_of 70 failed; found = refl; in_status = refl }) refl
