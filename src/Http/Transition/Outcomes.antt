-- ===== src/Http/Transition/Outcomes.antt =====
-- What the views of src/apis/payment/command_views.py answer about a stored payment.
use microservice_payment_ser.Base.{
  ◌+◌, ℕ, ◌≡◌, refl, false, Option, none, some, [], ◌∙◌, ap, sym, subst, ◌⊎◌,
}
use Prim.Native.String.{String}
use microservice_payment_ser.Base.Text.{Text, codes, is_empty}
use microservice_payment_ser.Base.Json.{Members, Codec, str, object, end, member}
use microservice_payment_ser.Errors.{
  Uuid, Error, Result, ok, err, payment_already_processed, payment_not_processable,
}
use microservice_payment_ser.Action.{Action, rethrow-ok}
use microservice_payment_ser.Payment.Types.{PaymentStatus}
use microservice_payment_ser.Payment.Aggregate.{
  PaymentAggregate, Env, Command, process_command, succeed_command, fail_command, cancel_command,
  refund_command,
}
use microservice_payment_ser.Payment.Aggregate.Lifecycle.{next_status}
use microservice_payment_ser.Payment.Events.{PaymentEvent}
use microservice_payment_ser.Payment.Events.Serial.{option_json}
use microservice_payment_ser.EventStore.{Database, Setting}
use microservice_payment_ser.EventStore.Append.{IsFresh}
use microservice_payment_ser.Repository.{Source, save_target}
use microservice_payment_ser.Repository.Reload.{Represents}
use microservice_payment_ser.Commands.{
  transition, handle_transition, domain_error, transition_error,
}
use microservice_payment_ser.Commands.Transitions.{transition_commits, transition_refused_with}
use microservice_payment_ser.Http.Requests.{
  Request, Response, field, read_request, read_request-anonymous,
}
use microservice_payment_ser.Http.Posting.{optional_text-option_json}
use microservice_payment_ser.Http.Transition.{
  bad_json, bad_uuid, bad_uuids, read_fields, transition_failed, conclude, process_payment,
  succeed_payment, fail_payment, cancel_payment, mark_payment_as_refunded, fail_with, refund_with,
}

-- The five views.
pub data Endpoint : Type 0 where
  process_endpoint succeed_endpoint fail_endpoint cancel_endpoint refund_endpoint : Endpoint

-- A request that all of them understand.
abbrev pub change_request : Codec → Text → Uuid → Option Text → Uuid → Request
change_request c user u reason refund_id = record {
  http_method = codes "POST";
  user_id = some (str user);
  body = some (
      object (
        member "payment_id" (str (c.uuid_str u)) (
          member "reason" (option_json reason)
            (member "refund_id" (str (c.uuid_str refund_id)) end))));
  parse_error = [];
  idempotency_key = none;
}

abbrev pub command_at : Endpoint → Option Text → Uuid → Command
command_at process_endpoint reason refund_id = process_command
command_at succeed_endpoint reason refund_id = succeed_command
command_at fail_endpoint reason refund_id = fail_command reason
command_at cancel_endpoint reason refund_id = cancel_command
command_at refund_endpoint reason refund_id = refund_command refund_id

abbrev pub success_status : Endpoint → ℕ
success_status process_endpoint = 202
success_status _ = 200

abbrev done_at : Endpoint → String
done_at process_endpoint = "Payment processing initiated"
done_at succeed_endpoint = "Payment succeeded"
done_at fail_endpoint = "Payment failed"
done_at cancel_endpoint = "Payment canceled"
done_at refund_endpoint = "Payment marked as refunded"

abbrev what_at : Endpoint → String
what_at process_endpoint = "Failed to process payment"
what_at succeed_endpoint = "Failed to succeed payment"
what_at fail_endpoint = "Failed to fail payment"
what_at cancel_endpoint = "Failed to cancel payment"
what_at refund_endpoint = "Failed to mark payment as refunded"

abbrev wrong_at : (Error → Text) → Endpoint → Members → Response
wrong_at message refund_endpoint m = bad_uuids message m
wrong_at message _ m = bad_uuid message (field "payment_id" m)

abbrev failed_at : (Error → Text) → Endpoint → Members → Error → Response
failed_at message p m =
    transition_failed message (what_at p) (field "payment_id" m) (wrong_at message p m)

status-transition_error :
    (message : Error → Text) (p : Endpoint) (m : Members) (y : Error)
    → (failed_at message p m (domain_error (transition_error y))).status ≡ 400
status-transition_error message p m (payment_already_processed u s) = refl
status-transition_error message p m (payment_not_processable u s a) = refl
status-transition_error message p m _ = refl

abbrev Done : Type 0
Done = Result (Unit {0}) × Database

abbrev Answer : Type 0
Answer = Result Response × Database

abbrev reworded : Done → Done
reworded x = elim x.0 [ ok a ↦ (ok a, x.1) | err e ↦ (err (domain_error e), x.1) ]

module _ (c : Codec) (s : Setting) (message : Error → Text) (src : Source) (env : Env) where
  abbrev pub view_at : Endpoint → Request → Action Database Response
  view_at process_endpoint = process_payment c s message src env
  view_at succeed_endpoint = succeed_payment c s message src env
  view_at fail_endpoint = fail_payment c s message src env
  view_at cancel_endpoint = cancel_payment c s message src env
  view_at refund_endpoint = mark_payment_as_refunded c s message src env

  abbrev body_at : Uuid → Option Text → Uuid → Members
  body_at u reason refund_id =
      member "payment_id" (str (c.uuid_str u))
        (member "reason" (option_json reason) (member "refund_id" (str (c.uuid_str refund_id)) end))

  abbrev answer_at :
      Endpoint
      → Uuid
      → Option Text
      → Uuid
      → Result (Unit {0}) × Database
      → Result Response × Database
  answer_at p u reason refund_id =
      conclude c s message src env (success_status p) (done_at p)
        (failed_at message p (body_at u reason refund_id))

  module _ (user : Text) (logged : is_empty user ≡ false) (u : Uuid) (reason : Option Text)
      (refund_id : Uuid) (db : Database) where
    view_at-handled :
        (p : Endpoint)
        → view_at p (change_request c user u reason refund_id) db
          ≡ answer_at p u reason refund_id
              (handle_transition c s (command_at p reason refund_id) src env u db)
    unfolding process_payment succeed_payment fail_payment cancel_payment mark_payment_as_refunded
        read_fields read_request
    view_at-handled process_endpoint =
        rw (logged, c.uuid_str_non_empty u, c.uuid_of-uuid_str u) refl
    view_at-handled succeed_endpoint =
        rw (logged, c.uuid_str_non_empty u, c.uuid_of-uuid_str u) refl
    view_at-handled fail_endpoint =
        rw
          (
            logged,
            c.uuid_str_non_empty u,
            c.uuid_of-uuid_str u,
            fail_with,
            optional_text-option_json reason,
          )
          refl
    view_at-handled cancel_endpoint = rw (logged, c.uuid_str_non_empty u, c.uuid_of-uuid_str u) refl
    view_at-handled refund_endpoint =
        rw
          (
            logged,
            c.uuid_str_non_empty u,
            c.uuid_str_non_empty refund_id,
            c.uuid_of-uuid_str u,
            refund_with,
            c.uuid_of-uuid_str refund_id,
          )
          refl

  -- Each of the five views, asked by some user to change a stored payment whose status has an entry
  -- for its command in the state table, outside of debug mode and under new row ids, answers with
  -- its success status and leaves the tables holding the payment in the status of that entry, at the
  -- next version.
  pub change_commits :
      (p : Endpoint) (user : Text) (reason : Option Text) (refund_id : Uuid) (a : PaymentAggregate)
      (st : PaymentStatus) (db : Database)
      → is_empty user ≡ false
      → s.debug ≡ false
      → Represents c db a
      → next_status (command_at p reason refund_id) a.status ≡ some st
      → ((e : PaymentEvent) → IsFresh s (save_target a e) a.version db)
      → let (res, db') = view_at p (change_request c user a.payment_id reason refund_id) db in
        ((r : Response) × (res ≡ ok r) × (r.status ≡ success_status p))
        × ((d : PaymentAggregate) × (d.payment_id ≡ a.payment_id)
            × (d.status ≡ st)
            × (d.version ≡ a.version + 1)
            × Represents c db' d)
  unfolding handle_transition
  change_commits p user reason refund_id a st db logged production held goes fresh =
      let u = a.payment_id in
      let k = command_at p reason refund_id in
      let (res, (d, mine, there, amount, next, after)) =
        transition_commits c s k src env a st db production held goes fresh in
      let db' = (transition c s k src env u db).1 in
      let handled =
        rethrow-ok domain_error (transition c s k src env u) db db' tt
          (ap (λ (r : Result (Unit {0})). (r, db')) res) in
      let answer =
        view_at-handled user logged u reason refund_id db p
        ∙ ap (answer_at p u reason refund_id) handled in
      (
        (_, ap (λ (x : Answer). x.0) answer, refl),
        (d, mine, there, next, subst (λ (x : Answer). Represents c x.1 d) (sym answer) after),
      )

  -- Each of the five views, asked by some user to change a stored payment whose status has no entry
  -- for its command, answers 400 and changes no table.
  pub change_refused :
      (p : Endpoint) (user : Text) (reason : Option Text) (refund_id : Uuid) (a : PaymentAggregate)
      (db : Database)
      → is_empty user ≡ false
      → Represents c db a
      → next_status (command_at p reason refund_id) a.status ≡ none
      → let (res, db') = view_at p (change_request c user a.payment_id reason refund_id) db in
        ((r : Response) × (res ≡ ok r) × (r.status ≡ 400)) × (db' ≡ db)
  unfolding handle_transition
  change_refused p user reason refund_id a db logged held stops =
      let u = a.payment_id in
      let k = command_at p reason refund_id in
      let (y, step) = transition_refused_with c s k src env a db held stops in
      let answer =
        view_at-handled user logged u reason refund_id db p
        ∙ ap (λ (x : Done). answer_at p u reason refund_id (reworded x)) step in
      (
        (
          failed_at message p (body_at u reason refund_id) (domain_error (transition_error y)),
          ap (λ (x : Answer). x.0) answer,
          status-transition_error message p (body_at u reason refund_id) y,
        ),
        ap (λ (x : Answer). x.1) answer,
      )

  -- Whoever is not logged in is told so by each of the five views, or that the method is wrong, and
  -- no table changes.
  pub change_needs_user :
      (p : Endpoint) (q : Request) (db : Database)
      → q.user_id ≡ none
      → let (res, db') = view_at p q db in
        ((r : Response) × (res ≡ ok r) × ((r.status ≡ 401) ⊎ (r.status ≡ 405))) × (db' ≡ db)
  unfolding process_payment succeed_payment fail_payment cancel_payment mark_payment_as_refunded
      read_fields
  change_needs_user process_endpoint q db anonymous =
      let (r, told, status) = read_request-anonymous (bad_json q) q anonymous in
      rw told ((r, refl, status), refl)
  change_needs_user succeed_endpoint q db anonymous =
      let (r, told, status) = read_request-anonymous (bad_json q) q anonymous in
      rw told ((r, refl, status), refl)
  change_needs_user fail_endpoint q db anonymous =
      let (r, told, status) = read_request-anonymous (bad_json q) q anonymous in
      rw told ((r, refl, status), refl)
  change_needs_user cancel_endpoint q db anonymous =
      let (r, told, status) = read_request-anonymous (bad_json q) q anonymous in
      rw told ((r, refl, status), refl)
  change_needs_user refund_endpoint q db anonymous =
      let (r, told, status) = read_request-anonymous (bad_json q) q anonymous in
      rw told ((r, refl, status), refl)
