-- ===== src/EventStore/Append.antt =====
-- What `append` does to the tables (src/infrastructure/repos/event_store_repo.py).
use microservice_payment_ser.Base.{
  ℕ, ◌+◌, ◌<◌, ◌≡◌, refl, ◌≢◌, true, false, List, [], ◌∷◌, ◌++◌, any, any-snoc_false, any-or_right,
  any-or_false, append_assoc, append-nil, ◌==◌, arith, ◌||◌, ◌∙◌,
}
use microservice_payment_ser.Action.{◌>>◌, >>-ok, >>-err, atomic-ok, atomic-err}
use microservice_payment_ser.Base.Json.{Codec}
use microservice_payment_ser.Errors.{Error, ok, err, optimistic_concurrency}
use microservice_payment_ser.Outbox.{Outbox, save, has_id, new_row, latest_version}
use microservice_payment_ser.Outbox.Laws.{save_appends}
use microservice_payment_ser.Payment.Events.{PaymentEvent}
use microservice_payment_ser.EventStore.{
  StoredEvent, Database, Setting, Target, at_version, create_event, stored_row, outbox_event,
  on_outbox, project_in_debug, append_one, append_loop, append,
}

create_event_taken :
    (row : StoredEvent) (v : ℕ) (db : Database)
    → any (λ r. r.id == row.id || at_version row.aggregate_id row.aggregate_version r) db.events
      ≡ true
    → create_event row v db
      ≡ (err (optimistic_concurrency row.aggregate_id v row.aggregate_version), db)
unfolding create_event
create_event_taken row v db h = rw h

create_event_free :
    (row : StoredEvent) (v : ℕ) (db : Database)
    → any (λ r. r.id == row.id || at_version row.aggregate_id row.aggregate_version r) db.events
      ≡ false
    → create_event row v db ≡ (ok tt, record db { events = db.events ++ row ∷ [] })
unfolding create_event
create_event_free row v db h = rw h

-- A conflict: the aggregate already has a row with the version after the expected one. The append
-- raises `OptimisticConcurrencyError` with both versions and leaves every table as it was.
pub append_conflict :
    (c : Codec) (s : Setting) (t : Target) (e : PaymentEvent) (es : List PaymentEvent)
    (db : Database)
    → any (at_version t.aggregate_id (t.expected_version + 1)) db.events ≡ true
    → append c s t (e ∷ es) db ≡ (
      err (optimistic_concurrency t.aggregate_id t.expected_version (t.expected_version + 1)),
      db,
    )
unfolding append append_loop append_one
append_conflict c s t e es db taken =
    let v = t.expected_version + 1 in
    let x = optimistic_concurrency t.aggregate_id t.expected_version v in
    let create = create_event (stored_row c s t e v) t.expected_version in
    let rest = on_outbox (save (outbox_event c s t e v)) >> project_in_debug s.debug e in
    let hit =
      any-or_right (λ (r : StoredEvent). r.id == s.event_row_id v) (at_version t.aggregate_id v)
        db.events taken in
    let stops = create_event_taken (stored_row c s t e v) t.expected_version db hit in
    atomic-err (append_loop c s t (e ∷ es) t.expected_version) db db x
      (>>-err (create >> rest) (append_loop c s t es v) db db x (>>-err create rest db db x stops))

-- An append that raises, at whatever event, leaves every table as it was.
pub append_all_or_nothing :
    (c : Codec) (s : Setting) (t : Target) (es : List PaymentEvent) (x : Error) (db : Database)
    → (append c s t es db).0 ≡ err x
    → (append c s t es db).1 ≡ db
unfolding append
append_all_or_nothing c s t [] x db h = refl
append_all_or_nothing c s t (e ∷ es) x db h = ground arith

-- The rows that an append of the events after version `v` adds to the event store.
abbrev pub rows_for : Codec → Setting → Target → List PaymentEvent → ℕ → List StoredEvent
rows_for c s t [] v = []
rows_for c s t (e ∷ es) v = stored_row c s t e (v + 1) ∷ rows_for c s t es (v + 1)

-- The outbox after that append: each event is behind the last, with the next version of the
-- aggregate in the outbox.
abbrev pub outbox_after : Codec → Setting → Target → List PaymentEvent → ℕ → Outbox → Outbox
outbox_after c s t [] v rows = rows
outbox_after c s t (e ∷ es) v rows =
    let entry = outbox_event c s t e (v + 1) in
    outbox_after c s t es (v + 1)
      (rows ++ new_row entry (latest_version t.aggregate_id rows + 1) ∷ [])

-- No row has a version of the aggregate above `v`, and `uuid4` gives new ids to the rows above it.
pub record IsFresh (s : Setting) (t : Target) (v : ℕ) (db : Database) : Type 0 where
  pub versions : (k : ℕ) → v < k → any (at_version t.aggregate_id k) db.events ≡ false
  pub row_ids : (k : ℕ) → v < k → any (λ r. r.id == s.event_row_id k) db.events ≡ false
  pub outbox_ids : (k : ℕ) → v < k → any (has_id (s.outbox_id k)) db.outbox ≡ false
  pub rows_apart : (j k : ℕ) → j ≢ k → s.event_row_id j ≢ s.event_row_id k
  pub outbox_apart : (j k : ℕ) → j ≢ k → s.outbox_id j ≢ s.outbox_id k

abbrev after_one : Codec → Setting → Target → PaymentEvent → ℕ → Database → Database
after_one c s t e v db = record db {
  events = db.events ++ stored_row c s t e v ∷ [];
  outbox =
      db.outbox
      ++ new_row (outbox_event c s t e v) (latest_version t.aggregate_id db.outbox + 1) ∷ [];
}

module _ (c : Codec) (s : Setting) (t : Target) (production : s.debug ≡ false) where
  append_one_fresh :
      (e : PaymentEvent) (v : ℕ) (db : Database)
      → IsFresh s t v db
      → append_one c s t e (v + 1) db ≡ (ok tt, after_one c s t e (v + 1) db)
  unfolding append_one project_in_debug
  append_one_fresh e v db f =
      let free =
        any-or_false (λ (r : StoredEvent). r.id == s.event_row_id (v + 1))
          (at_version t.aggregate_id (v + 1)) db.events (f.row_ids (v + 1) (omega arith))
          (f.versions (v + 1) (omega arith)) in
      let saved =
        save_appends (outbox_event c s t e (v + 1)) db.outbox
          (f.outbox_ids (v + 1) (omega arith)) in
      let row = stored_row c s t e (v + 1) in
      let entry = outbox_event c s t e (v + 1) in
      let last = project_in_debug s.debug e in
      let db' = record db { events = db.events ++ row ∷ [] } in
      >>-ok (create_event row t.expected_version) (on_outbox (save entry) >> last) db db'
        (create_event_free row t.expected_version db free)
      ∙ >>-ok (on_outbox (save entry)) last db' (after_one c s t e (v + 1) db) (rw saved)
      ∙ rw production

  IsFresh-after_one :
      (e : PaymentEvent) (v : ℕ) (db : Database)
      → IsFresh s t v db
      → IsFresh s t (v + 1) (after_one c s t e (v + 1) db)
  IsFresh-after_one e v db f = record {
    versions = λ k h.
        any-snoc_false (at_version t.aggregate_id k) db.events (stored_row c s t e (v + 1))
          (f.versions k (omega arith)) (ground arith);
    row_ids = λ k h.
        any-snoc_false (λ (r : StoredEvent). r.id == s.event_row_id k) db.events
          (stored_row c s t e (v + 1)) (f.row_ids k (omega arith))
          (ground (arith, f.rows_apart (v + 1) k));
    outbox_ids = λ k h.
        any-snoc_false (has_id (s.outbox_id k)) db.outbox
          (new_row (outbox_event c s t e (v + 1)) (latest_version t.aggregate_id db.outbox + 1))
          (f.outbox_ids k (omega arith)) (ground (arith, f.outbox_apart (v + 1) k));
    rows_apart = f.rows_apart;
    outbox_apart = f.outbox_apart;
  }

  append_loop_fresh :
      (es : List PaymentEvent) (v : ℕ) (db : Database)
      → IsFresh s t v db
      → append_loop c s t es v db ≡ (
        ok tt,
        record db {
          events = db.events ++ rows_for c s t es v;
          outbox = outbox_after c s t es v db.outbox;
        },
      )
  unfolding append_loop
  append_loop_fresh [] v db f = rw append-nil
  append_loop_fresh (e ∷ es) v db f =
      let next = after_one c s t e (v + 1) db in
      >>-ok (append_one c s t e (v + 1)) (append_loop c s t es (v + 1)) db next
        (append_one_fresh e v db f)
      ∙ append_loop_fresh es (v + 1) next (IsFresh-after_one e v db f)
      ∙ rw (append_assoc db.events)

  -- An append to an aggregate whose last version is the expected one, with new ids and outside of
  -- debug mode, goes through: the events stand in the event store under the versions that follow,
  -- in order, and in the outbox in the same order; the read model is left to the consumers.
  pub append_commits :
      (es : List PaymentEvent) (db : Database)
      → IsFresh s t t.expected_version db
      → append c s t es db ≡ (
        ok tt,
        record db {
          events = db.events ++ rows_for c s t es t.expected_version;
          outbox = outbox_after c s t es t.expected_version db.outbox;
        },
      )
  unfolding append
  append_commits [] db f = rw append-nil
  append_commits (e ∷ es) db f =
      atomic-ok (append_loop c s t (e ∷ es) t.expected_version) db _ tt
        (append_loop_fresh (e ∷ es) t.expected_version db f)
