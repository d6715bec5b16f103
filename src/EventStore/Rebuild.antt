-- ===== src/EventStore/Rebuild.antt =====
-- The read model from stored rows: `apply` of `PaymentProjectionRunner`
-- (src/infrastructure/projectors/payment/projector.py), which takes one row, and the command
-- src/infrastructure/apps/outbox/management/commands/rebuild_payment_projection.py, which takes all
-- of them.
use microservice_payment_ser.Base.{
  ◌≡◌, refl, sym, ap, ◌∙◌, inl, inr, Bool, true, false, Option, none, some, List, [], ◌∷◌,
  filter_by, leb, ◌==◌, if◌then◌else◌, arith,
}
use microservice_payment_ser.Base.Text.{codes, text_eq}
use microservice_payment_ser.Base.Json.{Codec}
use microservice_payment_ser.Errors.{Uuid, Time, Error, Result, ok, err, Result-cases}
use microservice_payment_ser.Action.{Action}
use microservice_payment_ser.Payment.Events.{PaymentEvent}
use microservice_payment_ser.Payment.Events.Serial.{event_from_dict}
use microservice_payment_ser.Projection.{ReadModels, project}
use microservice_payment_ser.Projection.Runner.{
  ProjectionState, Projections, projection_version, get_or_create, apply_event,
}
use microservice_payment_ser.EventStore.{StoredEvent, Database}
pub mod Incremental

-- What reading a row draws from `uuid4` and the clock.
abbrev pub event_of_row : Codec → Uuid → Time → StoredEvent → Result PaymentEvent
event_of_row c fresh now r = event_from_dict c fresh now r.event_type r.event_payload

-- `apply`
unfoldable pub apply_row : Codec → Uuid → Time → StoredEvent → Action Projections (Unit {0})
unfolding apply_event
apply_row c fresh now r p =
    if (get_or_create p.state).version == projection_version
    then elim (event_of_row c fresh now r) [
      | ok e ↦ apply_event e (some r.id) p
      | err x ↦ (err x, p)
    ]
    else (ok tt, record p { state = some (get_or_create p.state) })

-- Row after row, as a consumer that has seen them all would.
unfoldable pub apply_rows : Codec → Uuid → Time → List StoredEvent → Action Projections (Unit {0})
apply_rows c fresh now [] p = (ok tt, p)
apply_rows c fresh now (r ∷ rows) p =
    let (res, q) = apply_row c fresh now r p in
    elim res [ ok _ ↦ apply_rows c fresh now rows q | err x ↦ (err x, q) ]

-- Insertion by `created_at`, behind the rows of the same time.
unfoldable pub insert_by_time : StoredEvent → List StoredEvent → List StoredEvent
insert_by_time r [] = r ∷ []
insert_by_time r (x ∷ rows) =
    if leb x.created_at r.created_at then x ∷ insert_by_time r rows else r ∷ x ∷ rows

-- `filter(aggregate_type="Payment").order_by("created_at")`
unfoldable pub order_by_time : List StoredEvent → List StoredEvent → List StoredEvent
unfolding insert_by_time
order_by_time sorted [] = sorted
order_by_time sorted (r ∷ rows) = order_by_time (insert_by_time r sorted) rows

abbrev pub payment_rows : Database → List StoredEvent
payment_rows db =
    order_by_time [] (filter_by (λ r. text_eq r.aggregate_type (codes "Payment")) db.events)

-- The loop of the rebuild, with the id of the last row that has been projected.
unfoldable pub rebuild_loop :
    Codec → Uuid → Time → List StoredEvent → Option Uuid → Action ReadModels (Option Uuid)
rebuild_loop c fresh now [] last models = (ok last, models)
rebuild_loop c fresh now (r ∷ rows) last models = elim (event_of_row c fresh now r) [
  | err x ↦ (err x, models)
  | ok e ↦
      let (res, after) = project e models in
      elim res [ ok _ ↦ rebuild_loop c fresh now rows (some r.id) after | err x ↦ (err x, models) ]
]

-- `handle` of the rebuild command: the projection is off and empty during the loop, all in one
-- transaction
unfoldable pub rebuild : Codec → Uuid → Time → Action Database (Unit {0})
rebuild c fresh now db =
    let (res, models) = rebuild_loop c fresh now (payment_rows db) none [] in
    elim res [
      | err x ↦ (err x, db)
      | ok last ↦ (
        ok tt,
        record db {
          projections = record {
            read_models = models;
            state = some (record { version = projection_version; last_event_id = last });
          };
        },
      )
    ]

abbrev pub enabled : ReadModels → Option Uuid → Projections
enabled models last = record {
  read_models = models;
  state = some (record { version = projection_version; last_event_id = last });
}
