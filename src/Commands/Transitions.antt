-- ===== src/Commands/Transitions.antt =====
-- What a transition of a stored payment does to the tables
-- (src/application/payment/services/payment_command_service.py).
use microservice_payment_ser.Base.{
  inl, inr, true, ℕ, ◌+◌, ◌≡◌, refl, sym, ap, subst, ◌∙◌, false, none, some, List, [], ◌∷◌, arith,
}
use microservice_payment_ser.Base.Json.{Codec}
use microservice_payment_ser.Errors.{
  Uuid, Error, Result, ok, err, Result-cases, payment_already_processed, payment_not_processable,
  is_payment_domain_error,
}
use microservice_payment_ser.Payment.Types.{PaymentStatus}
use microservice_payment_ser.Payment.Events.{PaymentEvent}
use microservice_payment_ser.Payment.Aggregate.{PaymentAggregate, Env, Command, execute, run}
use microservice_payment_ser.Payment.Aggregate.Lifecycle.{
  next_status, status_after, execute-next_status, execute_frame,
}
use microservice_payment_ser.EventStore.{Database, Setting, Target}
use microservice_payment_ser.EventStore.Append.{IsFresh, append_all_or_nothing}
use microservice_payment_ser.Repository.{Source, load, save, save_popped, save_target}
use microservice_payment_ser.Repository.Reload.{
  Represents, timeless, load-Represents, save-Represents,
}
use microservice_payment_ser.Commands.{
  load_payment, save_aggregate, transition, transition_error, load_error,
}

-- An object that differs from a stored one in its timestamps alone is stored too.
abbrev Done : Type 0
Done = Result (Unit {0}) × Database

pub Represents-timeless :
    (c : Codec) (db : Database) (a b : PaymentAggregate)
    → timeless b ≡ timeless a
    → b.version ≡ a.version
    → Represents c db a
    → Represents c db b
Represents-timeless c db a b same counts r = record {
  first_head = r.first_head;
  first_fields = r.first_fields;
  later = r.later;
  begun_at = r.begun_at;
  start = r.start;
  rows = rw (ap (λ (x : PaymentAggregate). x.payment_id) same) r.rows;
  counted = counts ∙ r.counted;
  begins = r.begins;
  rebuilt = same ∙ r.rebuilt;
}

pub IsFresh-target :
    (s : Setting) (t t' : Target) (v w : ℕ) (db : Database)
    → t'.aggregate_id ≡ t.aggregate_id
    → w ≡ v
    → IsFresh s t v db
    → IsFresh s t' w db
IsFresh-target s t t' v w db same at_v f = rw at_v record {
  versions = rw same f.versions;
  row_ids = f.row_ids;
  outbox_ids = f.outbox_ids;
  rows_apart = f.rows_apart;
  outbox_apart = f.outbox_apart;
}

abbrev pub Saved : Type 0
Saved = Result PaymentAggregate × Database

save_popped_all_or_nothing :
    (c : Codec) (s : Setting) (a popped : PaymentAggregate) (es : List PaymentEvent) (x : Error)
    (db : Database)
    → (save_popped c s a es popped db).0 ≡ err x
    → (save_popped c s a es popped db).1 ≡ db
unfolding save_popped
save_popped_all_or_nothing c s a popped [] x db h = refl
save_popped_all_or_nothing c s a popped (e ∷ es) x db h =
    ground (arith, append_all_or_nothing c s (save_target a e) (e ∷ es) x db)

-- A save that raises leaves every table as it was.
save_all_or_nothing :
    (c : Codec) (s : Setting) (a : PaymentAggregate) (x : Error) (db : Database)
    → (save c s a db).0 ≡ err x
    → (save c s a db).1 ≡ db
unfolding save
save_all_or_nothing c s a x db h =
    save_popped_all_or_nothing c s a (record a { uncommitted_events = [] }) a.uncommitted_events x
      db h

-- `_save_aggregate`, by what the save does.
pub save_aggregate-ok :
    (c : Codec) (s : Setting) (a b : PaymentAggregate) (db : Database)
    → (save c s a db).0 ≡ ok b
    → save_aggregate c s a db ≡ (ok tt, (save c s a db).1)
unfolding save_aggregate
save_aggregate-ok c s a b db h = ground arith

save_aggregate_all_or_nothing :
    (c : Codec) (s : Setting) (a : PaymentAggregate) (x : Error) (db : Database)
    → (save_aggregate c s a db).0 ≡ err x
    → (save_aggregate c s a db).1 ≡ db
unfolding save_aggregate
save_aggregate_all_or_nothing c s a x db h = elim (Result-cases (save c s a db).0) [
  | inl (b, e) ↦ ground arith
  | inr (y, e) ↦ ground (arith, save_all_or_nothing c s a y db)
]

transition_error-domain : (x : Error) → is_payment_domain_error (transition_error x) ≡ true
transition_error-domain (payment_already_processed u t) = refl
transition_error-domain (payment_not_processable u t w) = refl
transition_error-domain _ = refl

run-one :
    (command : Command) (env : Env) (a d : PaymentAggregate)
    → execute command env a ≡ ok d
    → run ((command, env) ∷ []) a ≡ ok d
unfolding run
run-one command env a d h = ground arith

module _ (c : Codec) (s : Setting) (command : Command) (src : Source) (env : Env) where
  -- The parts of a transition.
  transition-loaded :
      (u : Uuid) (a b : PaymentAggregate) (db : Database)
      → load c src u db ≡ ok a
      → execute command env a ≡ ok b
      → transition c s command src env u db ≡ save_aggregate c s b db
  unfolding transition load_payment
  transition-loaded u a b db loads goes = ground arith

  transition-refused :
      (u : Uuid) (a : PaymentAggregate) (x : Error) (db : Database)
      → load c src u db ≡ ok a
      → execute command env a ≡ err x
      → transition c s command src env u db ≡ (err (transition_error x), db)
  unfolding transition load_payment
  transition-refused u a x db loads stops = ground arith

  transition-missing :
      (u : Uuid) (x : Error) (db : Database)
      → load c src u db ≡ err x
      → transition c s command src env u db ≡ (err (load_error u x), db)
  unfolding transition load_payment
  transition-missing u x db stops = ground arith

  -- A transition that raises leaves every table as it was, whatever has stopped it.
  pub transition_all_or_nothing :
      (u : Uuid) (x : Error) (db : Database)
      → (transition c s command src env u db).0 ≡ err x
      → (transition c s command src env u db).1 ≡ db
  transition_all_or_nothing u x db h = elim (Result-cases (load c src u db)) [
    | inr (y, missing) ↦ ap (λ (p : Done). p.1) (transition-missing u y db missing)
    | inl (a, loads) ↦ elim (Result-cases (execute command env a)) [
      | inr (y, stops) ↦ ap (λ (p : Done). p.1) (transition-refused u a y db loads stops)
      | inl (b, goes) ↦
          let step = transition-loaded u a b db loads goes in
          ap (λ (p : Done). p.1) step
          ∙ save_aggregate_all_or_nothing c s b x db (sym (ap (λ (p : Done). p.0) step) ∙ h)
    ]
  ]

  -- A stored payment on which the table of the state machine has an entry for the command, under
  -- new ids and outside of debug mode: the transition goes through, and the tables then hold the
  -- payment in the status of that entry, at the next version, with the amount that it had.
  pub transition_commits :
      (a : PaymentAggregate) (st : PaymentStatus) (db : Database)
      → s.debug ≡ false
      → Represents c db a
      → next_status command a.status ≡ some st
      → ((e : PaymentEvent) → IsFresh s (save_target a e) a.version db)
      → let (res, db') = transition c s command src env a.payment_id db in
        (res ≡ ok tt)
        × ((d : PaymentAggregate) × (d.payment_id ≡ a.payment_id)
            × (d.status ≡ st)
            × (d.amount ≡ a.amount)
            × (d.version ≡ a.version + 1)
            × Represents c db' d)
  transition_commits a st db production held goes fresh =
      let (b, loads, same, counts, clean) = load-Represents c db a src held in
      let next =
        execute-next_status command env b
        ∙ ap (λ (x : PaymentAggregate). next_status command x.status) same
        ∙ goes in
      elim (Result-cases (execute command env b)) [
        | inr (y, stops) ↦ ground (arith, ap status_after stops)
        | inl (d, done) ↦
            let (kept, recorded) = execute_frame command env b d done in
            let mine = kept.same_payment_id ∙ ap (λ (x : PaymentAggregate). x.payment_id) same in
            let (saves, after) =
              save-Represents c s production ((command, env) ∷ []) b d db
                (Represents-timeless c db a b same counts held) clean (run-one command env b d done)
                (λ e.
                  IsFresh-target s (save_target a e) (save_target d e) a.version b.version db mine
                    counts (fresh e)) in
            let popped = record d { uncommitted_events = [] } in
            let step =
              transition-loaded a.payment_id b d db loads done
              ∙ save_aggregate-ok c s d popped db saves in
            (
              ap (λ (p : Done). p.0) step,
              (
                popped,
                mine,
                ground (arith, ap status_after done),
                kept.same_amount ∙ ap (λ (x : PaymentAggregate). x.amount) same,
                recorded.counted ∙ ap (λ (n : ℕ). n + 1) counts,
                subst (λ (p : Done). Represents c p.1 popped) (sym step) after,
              ),
            )
      ]

  pub transition_refused_with :
      (a : PaymentAggregate) (db : Database)
      → Represents c db a
      → next_status command a.status ≡ none
      → (y : Error) × (transition c s command src env a.payment_id db
          ≡ (err (transition_error y), db))
  transition_refused_with a db held stops =
      let (b, loads, same, counts, clean) = load-Represents c db a src held in
      let next =
        execute-next_status command env b
        ∙ ap (λ (x : PaymentAggregate). next_status command x.status) same
        ∙ stops in
      elim (Result-cases (execute command env b)) [
        | inl (d, done) ↦ ground (arith, ap status_after done)
        | inr (y, raises) ↦ (y, transition-refused a.payment_id b y db loads raises)
      ]

  -- A stored payment on which the table has no entry for the command: the transition raises what
  -- the payment raises, as a `PaymentDomainError`, and changes no table.
  pub transition_refused :
      (a : PaymentAggregate) (db : Database)
      → Represents c db a
      → next_status command a.status ≡ none
      → let (res, db') = transition c s command src env a.payment_id db in
        ((x : Error) × (res ≡ err x) × (is_payment_domain_error x ≡ true)) × (db' ≡ db)
  transition_refused a db held stops =
      let (y, step) = transition_refused_with a db held stops in
      (
        (transition_error y, ap (λ (p : Done). p.0) step, transition_error-domain y),
        ap (λ (p : Done). p.1) step,
      )
