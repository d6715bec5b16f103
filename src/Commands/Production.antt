-- ===== src/Commands/Production.antt =====
-- Outside of debug mode no command writes the read model
-- (src/infrastructure/repos/event_store_repo.py,
-- src/application/payment/services/payment_command_service.py).
use microservice_payment_ser.Base.{
  ℕ, ◌+◌, ◌≡◌, refl, Bool, true, false, List, [], ◌∷◌, any, ◌==◌, ◌||◌, ◌∙◌, Bool-cases, inl, inr,
}
use microservice_payment_ser.Base.Text.{is_blank}
use microservice_payment_ser.Base.Json.{Codec}
use microservice_payment_ser.Errors.{Error, Result, ok, err, map_err}
use microservice_payment_ser.Action.{Action, pure, lift, rethrow, raise_when, ◌>>=◌}
use microservice_payment_ser.Payment.Types.{PaymentMethod}
use microservice_payment_ser.Payment.Events.{PaymentEvent}
use microservice_payment_ser.Payment.Aggregate
use microservice_payment_ser.Payment.Aggregate.{PaymentAggregate, Env, pop_events}
use microservice_payment_ser.Projection.Runner.{Projections}
use microservice_payment_ser.Outbox
use microservice_payment_ser.EventStore.{
  StoredEvent, Database, Setting, Target, at_version, create_event, stored_row, outbox_event,
  on_outbox, project_in_debug, append_one, append_loop, append,
}
use microservice_payment_ser.Repository.{save, save_popped, save_target}
use microservice_payment_ser.Commands.{
  CreateRequest, create_deposit, save_aggregate, persist_new, persist_error, check_currency,
  check_method, parse_payment_method, external_error, request_with,
}

-- An action that leaves the read model alone.
abbrev Keeps : {A : Type 0} → Action Database A → Type 0
Keeps m = (db : Database) → (m db).1.projections ≡ db.projections

module _ {A : Type 0} (p : Projections) where
  step-Keeps :
      {B : Type 0} (f : A → Action Database B) (x : Result A × Database)
      → x.1.projections ≡ p
      → ((a : A) → Keeps (f a))
      → (elim x.0 as (λ r. Result B × Database) [
        | ok a ↦ f a x.1
        | err e ↦ (err e, x.1)
      ]).1.projections
        ≡ p
  step-Keeps f (ok a, t) h kf = kf a t ∙ h
  step-Keeps f (err e, t) h kf = h

  wrapped-Keeps :
      (f : Error → Error) (x : Result A × Database)
      → x.1.projections ≡ p
      → (elim x.0 as (λ r. Result A × Database) [
        | ok a ↦ (ok a, x.1)
        | err e ↦ (err (f e), x.1)
      ]).1.projections
        ≡ p
  wrapped-Keeps f (ok a, t) h = h
  wrapped-Keeps f (err e, t) h = h

  atomic-Keeps :
      (db : Database) (x : Result A × Database)
      → x.1.projections ≡ p
      → db.projections ≡ p
      → (elim x.0 as (λ r. Result A × Database) [
        | ok a ↦ (ok a, x.1)
        | err e ↦ (err e, db)
      ]).1.projections
        ≡ p
  atomic-Keeps db (ok a, t) h k = h
  atomic-Keeps db (err e, t) h k = k

Keeps->>= :
    {A B : Type 0} (m : Action Database A) (f : A → Action Database B)
    → Keeps m
    → ((a : A) → Keeps (f a))
    → Keeps (m >>= f)
Keeps->>= m f km kf db = step-Keeps db.projections f (m db) (km db) kf

Keeps-raise_when : (b : Bool) (e : Error) → Keeps (raise_when b e)
Keeps-raise_when true e db = refl
Keeps-raise_when false e db = refl

Keeps-create_event : (row : StoredEvent) (v : ℕ) → Keeps (create_event row v)
unfolding create_event
Keeps-create_event row v db =
    elim (Bool-cases (
      any (λ r. r.id == row.id || at_version row.aggregate_id row.aggregate_version r) db.events)) [
        | inl e ↦ rw e refl
        | inr e ↦ rw e refl
      ]

module _ (c : Codec) (s : Setting) (production : s.debug ≡ false) where
  Keeps-project_in_debug : (e : PaymentEvent) → Keeps (project_in_debug s.debug e)
  unfolding project_in_debug
  Keeps-project_in_debug e db = rw production refl

  Keeps-append_one : (t : Target) (e : PaymentEvent) (v : ℕ) → Keeps (append_one c s t e v)
  unfolding append_one
  Keeps-append_one t e v =
      let publish = on_outbox (Outbox.save (outbox_event c s t e v)) in
      Keeps->>= (create_event (stored_row c s t e v) t.expected_version)
        (λ _. publish >>= λ _. project_in_debug s.debug e)
        (Keeps-create_event (stored_row c s t e v) t.expected_version)
        (λ _.
          Keeps->>= publish (λ _. project_in_debug s.debug e) (λ db. refl)
            λ _. Keeps-project_in_debug e)

  Keeps-append_loop : (t : Target) (es : List PaymentEvent) (v : ℕ) → Keeps (append_loop c s t es v)
  unfolding append_loop
  Keeps-append_loop t [] v = λ db. refl
  Keeps-append_loop t (e ∷ es) v =
      Keeps->>= (append_one c s t e (v + 1)) (λ _. append_loop c s t es (v + 1))
        (Keeps-append_one t e (v + 1)) λ _. Keeps-append_loop t es (v + 1)

  Keeps-append : (t : Target) (es : List PaymentEvent) → Keeps (append c s t es)
  unfolding append
  Keeps-append t [] db = refl
  Keeps-append t (e ∷ es) db =
      let loop = append_loop c s t (e ∷ es) t.expected_version in
      atomic-Keeps db.projections db (loop db) (Keeps-append_loop t (e ∷ es) t.expected_version db)
        refl

  Keeps-save_popped :
      (a : PaymentAggregate) (es : List PaymentEvent) (popped : PaymentAggregate)
      → Keeps (save_popped c s a es popped)
  unfolding save_popped
  Keeps-save_popped a [] popped = λ db. refl
  Keeps-save_popped a (e ∷ es) popped =
      Keeps->>= (append c s (save_target a e) (e ∷ es)) (λ _. pure _)
        (Keeps-append (save_target a e) (e ∷ es)) λ _ db. refl

  Keeps-save : (a : PaymentAggregate) → Keeps (save c s a)
  unfolding save pop_events
  Keeps-save a = Keeps-save_popped a a.uncommitted_events (record a { uncommitted_events = [] })

  Keeps-save_aggregate : (a : PaymentAggregate) → Keeps (save_aggregate c s a)
  unfolding save_aggregate
  Keeps-save_aggregate a =
      Keeps->>= (rethrow persist_error (save c s a)) (λ _. pure tt)
        (λ db. wrapped-Keeps db.projections persist_error (save c s a db) (Keeps-save a db))
        λ _ db. refl

  Keeps-persist_new :
      (wrap : Error → Error) (made : Result PaymentAggregate) → Keeps (persist_new c s wrap made)
  Keeps-persist_new wrap made =
      Keeps->>= (lift (map_err wrap made)) (λ a. save_aggregate c s a >>= λ _. pure a.payment_id)
        (λ db. refl)
        λ a.
          Keeps->>= (save_aggregate c s a) (λ _. pure a.payment_id) (Keeps-save_aggregate a)
            λ _ db. refl

  -- A deposit leaves the read model as it was.
  pub create_deposit-projections :
      (env : Env) (q : CreateRequest) → Keeps (create_deposit c s env q)
  unfolding create_deposit parse_payment_method
  create_deposit-projections env q =
      let made = λ (m : PaymentMethod). Aggregate.create_deposit env (request_with m q) in
      Keeps->>= (check_currency c s q)
        (λ _. check_method c s q >>= λ m. persist_new c s external_error (made m))
        (Keeps-raise_when _ _)
        λ _.
          Keeps->>= (check_method c s q) (λ m. persist_new c s external_error (made m))
            (Keeps->>= (raise_when (is_blank q.payment_method) _)
              (λ _. lift (parse_payment_method q.payment_method)) (Keeps-raise_when _ _)
              λ _ db. refl)
            λ m. Keeps-persist_new external_error (made m)
