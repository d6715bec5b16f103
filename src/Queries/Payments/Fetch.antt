-- ===== src/Queries/Payments/Fetch.antt =====
-- The query that the creation commands replay a payment with: `self._queries.get_payment` of
-- src/application/payment/handlers/payment_command_handlers.py, which is
-- src/application/payment/services/payment_query_service.py over the read model.
use microservice_payment_ser.Base.{◌≡◌, refl, none, [], ◌∷◌, arith}
use microservice_payment_ser.Base.Text.{Text}
use microservice_payment_ser.Base.Decimal.{Decimal}
use microservice_payment_ser.Errors.{Uuid, Time, Result, err, payment_not_found}
use microservice_payment_ser.Projection.{ReadModels, find_row}
use microservice_payment_ser.EventStore.{Database}
use microservice_payment_ser.Executor.{PaymentView}
use microservice_payment_ser.Queries.Payments.{ReadTable, find_view, by_id, django_repository}
use microservice_payment_ser.Queries.Payments.Service.{get_payment}

-- The rows with the timestamps that the database keeps of them.
abbrev pub timed_rows : (Uuid → Time × Time) → ReadModels → ReadTable
timed_rows stamps [] = []
timed_rows stamps (r ∷ rows) =
    record { row = r; created_at = (stamps r.id).0; updated_at = (stamps r.id).1 }
    ∷ timed_rows stamps rows

module _ (normalized : Decimal → Text) (stamps : Uuid → Time × Time) where
  unfoldable pub fetch_payment : Uuid → Database → Result PaymentView
  unfolding get_payment by_id
  fetch_payment u db =
      get_payment (django_repository normalized (timed_rows stamps db.projections.read_models)) u

  find_view-missing :
      (u : Uuid) (rows : ReadModels)
      → find_row u rows ≡ none
      → find_view normalized u (timed_rows stamps rows) ≡ none
  unfolding find_view
  find_view-missing u [] h = refl
  find_view-missing u (r ∷ rows) h = ground (arith, find_view-missing u rows)

  -- A payment without a row is not found.
  pub fetch_payment-missing :
      (u : Uuid) (db : Database)
      → find_row u db.projections.read_models ≡ none
      → fetch_payment u db ≡ err (payment_not_found u)
  unfolding fetch_payment
  fetch_payment-missing u db h = rw (by_id, find_view-missing u db.projections.read_models h) refl
