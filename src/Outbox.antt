-- ===== src/Outbox.antt =====
-- The transactional outbox: `DjangoOutBoxORMRepository` of
-- src/infrastructure/repos/outbox/orm_repository.py over the table `EventOutbox` of
-- src/infrastructure/apps/outbox/models.py.
use microservice_payment_ser.Base.{
  ℕ, zero, suc, ◌+◌, ◌≡◌, Bool, true, false, not, ◌&&◌, ◌||◌, Option, none, some, List, [], ◌∷◌,
  ◌++◌, any, take, filter_by, leb, ltb, ◌==◌, if◌then◌else◌,
}
use Prim.Native.Nat.{max}
use microservice_payment_ser.Base.Text.{Text}
use microservice_payment_ser.Base.Json.{Members}
use microservice_payment_ser.Errors.{
  Uuid, Time, Error, Result, ok, err, outbox_save_error, outbox_not_found, data_error,
}
use microservice_payment_ser.Action.{Action}
pub mod Laws
mod Tests

-- A row of `EventOutbox`; `trace_id` is never set and is left out.
pub record OutboxRow : Type 0 where
  pub id : Uuid
  pub event_type : Text
  pub event_payload : Members
  pub aggregate_id : Uuid
  pub aggregate_type : Text
  pub aggregate_version : ℕ
  pub trace_id : Option Uuid
  pub metadata : Members
  pub created_at : Time
  pub published_at : Option Time
  pub processed_at : Option Time
  pub retry_count : ℕ
  pub error_message : Option Text

abbrev pub Outbox : Type 0
Outbox = List OutboxRow

-- The `OutboxEvent` of src/domain/outbox/events.py that a caller hands over.
pub record OutboxEvent : Type 0 where
  pub id : Uuid
  pub event_type : Text
  pub event_payload : Members
  pub aggregate_id : Uuid
  pub aggregate_type : Text
  pub trace_id : Option Uuid
  pub metadata : Members
  pub created_at : Time
  pub retry_count : ℕ

-- `Max("aggregate_version")` over the rows of an aggregate, or 0
unfoldable pub latest_version : Uuid → Outbox → ℕ
latest_version u [] = 0
latest_version u (r ∷ rows) =
    if r.aggregate_id == u
    then max r.aggregate_version (latest_version u rows)
    else latest_version u rows

abbrev pub new_row : OutboxEvent → ℕ → OutboxRow
new_row e version = record {
  id = e.id;
  event_type = e.event_type;
  event_payload = e.event_payload;
  aggregate_id = e.aggregate_id;
  aggregate_type = e.aggregate_type;
  aggregate_version = version;
  trace_id = e.trace_id;
  metadata = e.metadata;
  created_at = e.created_at;
  published_at = none;
  processed_at = none;
  retry_count = e.retry_count;
  error_message = none;
}

-- What makes `objects.create` raise `IntegrityError`: the primary key, or
-- `unique_aggregate_version`.
abbrev pub violates : OutboxRow → Outbox → Bool
violates new rows =
    any
      (λ r.
        r.id == new.id
        || (r.aggregate_id == new.aggregate_id && r.aggregate_version == new.aggregate_version))
      rows

-- The loop of `save` with the attempts that are left; no other transaction runs between two.
unfoldable pub save_attempts : ℕ → OutboxEvent → Action Outbox (Unit {0})
unfolding latest_version
save_attempts zero e rows = (ok tt, rows)
save_attempts (suc left) e rows =
    let new = new_row e (latest_version e.aggregate_id rows + 1) in
    let again = save_attempts left e rows in
    if violates new rows
    then (if left == 0 then (err (outbox_save_error e.aggregate_id), rows) else again)
    else (ok tt, rows ++ new ∷ [])

abbrev max_retries : ℕ
max_retries = 3

-- `save`
unfoldable pub save : OutboxEvent → Action Outbox (Unit {0})
unfolding save_attempts
save = save_attempts max_retries

abbrev pub is_none {ℓ} : {A : Type ℓ} → Option A → Bool
is_none none = true
is_none (some a) = false

-- Insertion by `created_at`, behind the rows that are as old.
unfoldable pub insert_by_age : OutboxRow → Outbox → Outbox
insert_by_age r [] = r ∷ []
insert_by_age r (x ∷ rows) =
    if leb x.created_at r.created_at then x ∷ insert_by_age r rows else r ∷ x ∷ rows

-- `order_by('created_at')`
unfoldable pub order_by_age : Outbox → Outbox → Outbox
unfolding insert_by_age
order_by_age sorted [] = sorted
order_by_age sorted (r ∷ rows) = order_by_age (insert_by_age r sorted) rows

abbrev pub is_unprocessed : OutboxRow → Bool
is_unprocessed r = is_none r.processed_at

-- `get_unpublished_events`: the rows, which the source copies into `OutboxEvent`s
unfoldable pub get_unpublished_events : ℕ → Outbox → List OutboxRow
unfolding order_by_age
get_unpublished_events limit rows = take limit (order_by_age [] (filter_by is_unprocessed rows))

-- `filter(test).update(change)`
unfoldable pub update_rows : (OutboxRow → Bool) → (OutboxRow → OutboxRow) → Outbox → Outbox
update_rows test change [] = []
update_rows test change (r ∷ rows) = (if test r then change r else r) ∷ update_rows test change rows

abbrev pub has_id : Uuid → OutboxRow → Bool
has_id u r = r.id == u

abbrev pub publish : Time → OutboxRow → OutboxRow
publish now r = record r { published_at = some now; processed_at = some now }

abbrev pub unpublished : Uuid → OutboxRow → Bool
unpublished u r = has_id u r && is_none r.published_at

-- `mark_as_published`: a second call finds the row published and does nothing
unfoldable pub mark_as_published : Uuid → Time → Action Outbox (Unit {0})
unfolding update_rows
mark_as_published u now rows =
    if any (unpublished u) rows
    then (ok tt, update_rows (unpublished u) (publish now) rows)
    else (if any (has_id u) rows then (ok tt, rows) else (err (outbox_not_found u), rows))

-- the largest value of a `PositiveSmallIntegerField`
abbrev pub largest_count : ℕ
largest_count = 32767

-- whether the row of an event, which its primary key tells apart, has that count
abbrev pub is_worn : Uuid → Outbox → Bool
is_worn u [] = false
is_worn u (r ∷ rows) = if has_id u r then leb largest_count r.retry_count else is_worn u rows

-- `mark_as_failed`; a count that its column cannot hold any more is a `DataError`
unfoldable pub mark_as_failed : Uuid → Text → Action Outbox (Unit {0})
unfolding update_rows
mark_as_failed u error rows =
    if is_worn u rows
    then (err data_error, rows)
    else if any (has_id u) rows
    then (
      ok tt,
      update_rows (has_id u)
          (λ r. record r { error_message = some error; retry_count = r.retry_count + 1 }) rows,
    )
    else (err (outbox_not_found u), rows)
