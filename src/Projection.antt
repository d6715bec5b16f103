-- ===== src/Projection.antt =====
-- `PaymentProjector` of src/infrastructure/projectors/payment/projector.py over the table of
-- `PaymentReadModel` (src/infrastructure/apps/payment/models.py).
use microservice_payment_ser.Base.{
  ℕ, ◌≡◌, Bool, true, false, Option, none, some, List, [], ◌∷◌, any, ◌==◌, if◌then◌else◌, ◌&&◌,
}
use microservice_payment_ser.Base.Text.{Text, codes, is_empty, upper}
use microservice_payment_ser.Base.Decimal.{Decimal}
use microservice_payment_ser.Errors.{Uuid, Error, Result, ok, err, projection_invariant_violation}
use microservice_payment_ser.Action.{Action}
use microservice_payment_ser.Payment.Types.{
  PaymentStatus, pending, processing, succeeded, failed, cancelled, refunded,
}
use microservice_payment_ser.Payment.Events.{
  EventHead, CreatedFields, PaymentEvent, payment_created, payment_processed, payment_succeeded,
  payment_failed, payment_cancelled, payment_refunded,
}
pub mod Runner
pub mod Laws
mod Tests

-- A row of the read model. The timestamps that the database keeps are left out.
pub record ReadModel : Type 0 where
  pub id : Uuid
  pub wallet_id : Uuid
  pub user_id : Uuid
  pub amount : Decimal
  pub currency : Text
  pub payment_type : Text
  pub payment_method : Text
  pub status : PaymentStatus
  pub reference_id : Option Uuid
  pub description : Option Text

abbrev pub ReadModels : Type 0
ReadModels = List ReadModel

-- `objects.get(id=...)`
abbrev pub find_row : Uuid → ReadModels → Option ReadModel
find_row u [] = none
find_row u (r ∷ rs) = if r.id == u then some r else find_row u rs

-- The row that `PaymentCreatedEvent` describes.
abbrev pub created_row : EventHead → CreatedFields → ReadModel
created_row h f = record {
  id = h.payment_id;
  wallet_id = h.wallet_id;
  user_id = h.user_id;
  amount = f.amount;
  currency = upper f.currency;
  payment_type = f.payment_type;
  payment_method = f.payment_method;
  status = pending;
  reference_id = f.reference_id;
  description = f.description;
}

-- `update_or_create(id=..., defaults=...)`: `id` is the primary key, so one row has it at most
unfoldable pub update_or_create : ReadModel → ReadModels → ReadModels
update_or_create new [] = new ∷ []
update_or_create new (r ∷ rs) = if r.id == new.id then new ∷ rs else r ∷ update_or_create new rs

-- `on_payment_created`
unfoldable pub on_payment_created : EventHead → CreatedFields → Action ReadModels (Unit {0})
unfolding update_or_create
on_payment_created h f rows = (ok tt, update_or_create (created_row h f) rows)

-- `filter(id=..., status__in=...).update(...)`
unfoldable pub update_where :
    Uuid → (PaymentStatus → Bool) → (ReadModel → ReadModel) → ReadModels → ReadModels
update_where u test change [] = []
update_where u test change (r ∷ rs) =
    (if r.id == u && test r.status then change r else r) ∷ update_where u test change rs

-- whether that update reaches a row
abbrev pub reaches : Uuid → (PaymentStatus → Bool) → ReadModels → Bool
reaches u test rows = any (λ r. r.id == u && test r.status) rows

-- The body of the other handlers: an update that must reach a row.
unfoldable pub guarded_update :
    Uuid → (PaymentStatus → Bool) → (ReadModel → ReadModel) → Action ReadModels (Unit {0})
unfolding update_where
guarded_update u test change rows =
    if reaches u test rows
    then (ok tt, update_where u test change rows)
    else (err (projection_invariant_violation u), rows)

abbrev pub is_pending_row : PaymentStatus → Bool
is_pending_row pending = true
is_pending_row _ = false

-- `status__in=[PENDING, PROCESSING]`
abbrev pub is_open_row : PaymentStatus → Bool
is_open_row pending = true
is_open_row processing = true
is_open_row _ = false

abbrev pub is_succeeded_row : PaymentStatus → Bool
is_succeeded_row succeeded = true
is_succeeded_row _ = false

abbrev pub set_status : PaymentStatus → ReadModel → ReadModel
set_status s r = record r { status = s }

-- `f"{reason}" if reason else "Payment failed"`
abbrev pub failure_text : Option Text → Text
failure_text none = codes "Payment failed"
failure_text (some reason) = if is_empty reason then codes "Payment failed" else reason

-- `on_payment_processed`
unfoldable pub on_payment_processed : EventHead → Action ReadModels (Unit {0})
unfolding guarded_update
on_payment_processed h = guarded_update h.payment_id is_pending_row (set_status processing)

-- `on_payment_succeeded`
unfoldable pub on_payment_succeeded : EventHead → Action ReadModels (Unit {0})
unfolding guarded_update
on_payment_succeeded h = guarded_update h.payment_id is_open_row (set_status succeeded)

-- `on_payment_failed`
unfoldable pub on_payment_failed : EventHead → Option Text → Action ReadModels (Unit {0})
unfolding guarded_update
on_payment_failed h reason =
    guarded_update h.payment_id is_open_row
      (λ r. record r { status = failed; description = some (failure_text reason) })

-- `on_payment_cancelled`
unfoldable pub on_payment_cancelled : EventHead → Action ReadModels (Unit {0})
unfolding guarded_update
on_payment_cancelled h = guarded_update h.payment_id is_pending_row (set_status cancelled)

-- `on_payment_refunded`
unfoldable pub on_payment_refunded : EventHead → Action ReadModels (Unit {0})
unfolding guarded_update
on_payment_refunded h = guarded_update h.payment_id is_succeeded_row (set_status refunded)

-- `project`, on payment events; each handler writes once at most, so its transaction has nothing
-- to roll back
unfoldable pub project : PaymentEvent → Action ReadModels (Unit {0})
unfolding on_payment_created on_payment_processed on_payment_succeeded on_payment_failed
    on_payment_cancelled on_payment_refunded
project (payment_created h f) = on_payment_created h f
project (payment_processed h) = on_payment_processed h
project (payment_succeeded h) = on_payment_succeeded h
project (payment_failed h reason) = on_payment_failed h reason
project (payment_cancelled h) = on_payment_cancelled h
project (payment_refunded h amount currency refund_id) = on_payment_refunded h
