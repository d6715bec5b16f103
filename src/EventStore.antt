-- ===== src/EventStore.antt =====
-- `EventStoreRepository.append` of src/infrastructure/repos/event_store_repo.py over the tables of
-- src/infrastructure/apps/eventstore/models.py, the outbox and the read model.
use microservice_payment_ser.Base.{
  ℕ, zero, suc, ◌+◌, ◌≡◌, Bool, true, false, ◌&&◌, ◌||◌, Option, none, some, List, [], ◌∷◌, ◌++◌,
  any, ◌==◌, if◌then◌else◌,
}
use microservice_payment_ser.Base.Text.{Text}
use microservice_payment_ser.Base.Json.{Members, Codec}
use microservice_payment_ser.Errors.{Uuid, Time, Error, Result, ok, err, optimistic_concurrency}
use microservice_payment_ser.Action.{Action, pure, atomic, ◌>>=◌, ◌>>◌}
use microservice_payment_ser.Outbox
use microservice_payment_ser.Outbox.{Outbox, OutboxEvent}
use microservice_payment_ser.Payment.Events.{PaymentEvent}
use microservice_payment_ser.Payment.Events.Registry.{event_value}
use microservice_payment_ser.Payment.Events.Serial.{type_of_event, to_dict}
use microservice_payment_ser.Projection.Runner.{Projections, apply_from_event}
pub mod Rows
pub mod Append
pub mod Rebuild
mod Tests

-- A row of `EventStore`.
pub record StoredEvent : Type 0 where
  pub id : Uuid
  pub aggregate_id : Uuid
  pub aggregate_type : Text
  pub aggregate_version : ℕ
  pub event_type : Text
  pub event_payload : Members
  pub metadata : Members
  pub created_at : Time

pub record Database : Type 0 where
  pub events : List StoredEvent
  pub outbox : Outbox
  pub projections : Projections

-- What the rows that a call of `append` creates draw from `uuid4`, by their version, and from the
-- clock; and `settings.DEBUG`.
pub record Setting : Type 0 where
  pub event_row_id : ℕ → Uuid
  pub outbox_id : ℕ → Uuid
  pub now : Time
  pub debug : Bool

abbrev pub at_version : Uuid → ℕ → StoredEvent → Bool
at_version u v r = r.aggregate_id == u && r.aggregate_version == v

-- `objects.create`; `IntegrityError` is `unique_aggregate_event_version` or the primary key, and
-- both are answered by `OptimisticConcurrencyError`
unfoldable pub create_event : StoredEvent → ℕ → Action Database (Unit {0})
create_event row expected_version db =
    if any (λ r. r.id == row.id || at_version row.aggregate_id row.aggregate_version r) db.events
    then (err (optimistic_concurrency row.aggregate_id expected_version row.aggregate_version), db)
    else (ok tt, record db { events = db.events ++ row ∷ [] })

abbrev pub on_outbox : {A : Type 0} → Action Outbox A → Action Database A
on_outbox m db = let (r, rows) = m db.outbox in (r, record db { outbox = rows })

abbrev pub on_projections : {A : Type 0} → Action Projections A → Action Database A
on_projections m db = let (r, p) = m db.projections in (r, record db { projections = p })

-- The arguments of `append` that every event shares.
pub record Target : Type 0 where
  pub aggregate_id : Uuid
  pub aggregate_type : Text
  pub expected_version : ℕ
  pub metadata : Members

abbrev pub stored_row : Codec → Setting → Target → PaymentEvent → ℕ → StoredEvent
stored_row c s t e v = record {
  id = s.event_row_id v;
  aggregate_id = t.aggregate_id;
  aggregate_type = t.aggregate_type;
  aggregate_version = v;
  event_type = event_value (type_of_event e);
  event_payload = to_dict c e;
  metadata = t.metadata;
  created_at = s.now;
}

abbrev pub outbox_event : Codec → Setting → Target → PaymentEvent → ℕ → OutboxEvent
outbox_event c s t e v = record {
  id = s.outbox_id v;
  event_type = event_value (type_of_event e);
  event_payload = to_dict c e;
  aggregate_id = t.aggregate_id;
  aggregate_type = t.aggregate_type;
  trace_id = none;
  metadata = t.metadata;
  created_at = s.now;
  retry_count = 0;
}

-- `if settings.DEBUG: runner.apply_from_event(...)`
unfoldable pub project_in_debug : Bool → PaymentEvent → Action Database (Unit {0})
project_in_debug true e = on_projections (apply_from_event e)
project_in_debug false e = pure tt

-- The body of the loop, for the version of the event.
unfoldable pub append_one : Codec → Setting → Target → PaymentEvent → ℕ → Action Database (Unit {0})
append_one c s t e v = do
  create_event (stored_row c s t e v) t.expected_version
  on_outbox (Outbox.save (outbox_event c s t e v))
  project_in_debug s.debug e

-- The loop of `append`, from the version of the last event before it.
unfoldable pub append_loop :
    Codec → Setting → Target → List PaymentEvent → ℕ → Action Database (Unit {0})
append_loop c s t [] current = pure tt
append_loop c s t (e ∷ es) current = do
  append_one c s t e (current + 1)
  append_loop c s t es (current + 1)

-- `append`
unfoldable pub append : Codec → Setting → Target → List PaymentEvent → Action Database (Unit {0})
append c s t [] = pure tt
append c s t (e ∷ es) = atomic (append_loop c s t (e ∷ es) t.expected_version)
