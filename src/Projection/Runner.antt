-- ===== src/Projection/Runner.antt =====
-- `PaymentProjectionRunner` of src/infrastructure/projectors/payment/projector.py: the projector
-- behind the row of `ProjectionState` (src/infrastructure/apps/eventstore/models.py).
use microservice_payment_ser.Base.{ℕ, Option, none, some, ◌==◌, if◌then◌else◌}
use microservice_payment_ser.Errors.{Uuid, ok, err}
use microservice_payment_ser.Action.{Action}
use microservice_payment_ser.Payment.Events.{PaymentEvent}
use microservice_payment_ser.Projection.{ReadModels, project}

pub record ProjectionState : Type 0 where
  pub version : ℕ
  pub last_event_id : Option Uuid

-- The read model with the row of the projection named "payment".
pub record Projections : Type 0 where
  pub read_models : ReadModels
  pub state : Option ProjectionState

-- `PaymentProjectionRunner.VERSION`
abbrev pub projection_version : ℕ
projection_version = 1

-- `get_or_create(projection_name=..., defaults={"version": VERSION})`
abbrev pub get_or_create : Option ProjectionState → ProjectionState
get_or_create none = record { version = projection_version; last_event_id = none }
get_or_create (some st) = st

-- The body that `apply` and `apply_from_event` share, by the event id that they store.
unfoldable pub apply_event : PaymentEvent → Option Uuid → Action Projections (Unit {0})
apply_event e id p =
    let st = get_or_create p.state in
    if st.version == projection_version
    then (let (res, rows) = project e p.read_models in
        elim res [
          | ok _ ↦ (
            ok tt,
            record { read_models = rows; state = some (record st { last_event_id = id }) },
          )
          | err x ↦ (err x, p)
        ])
    else (ok tt, record p { state = some st })

-- `apply_from_event`
unfoldable pub apply_from_event : PaymentEvent → Action Projections (Unit {0})
unfolding apply_event
apply_from_event e = apply_event e none
