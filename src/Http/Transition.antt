-- ===== src/Http/Transition.antt =====
-- The five views of src/apis/payment/command_views.py that change a stored payment.
use microservice_payment_ser.Base.{Bool, ◌||◌, ℕ, Option, none, some, if◌then◌else◌}
use Prim.Native.String.{String}
use microservice_payment_ser.Base.Text.{Text, codes}
use microservice_payment_ser.Base.Json.{Json, Members, Codec, str, object, end, member}
use microservice_payment_ser.Errors.{
  Uuid, Error, Result, ok, err, payment_not_found, payments_not_found, value_error,
  is_payment_domain_error,
}
use microservice_payment_ser.Action.{Action, lift, ◌>>=◌}
use microservice_payment_ser.Payment.Aggregate.{
  Env, Command, process_command, succeed_command, fail_command, cancel_command, refund_command,
}
use microservice_payment_ser.Payment.Events.Serial.{optional_text}
use microservice_payment_ser.EventStore.{Database, Setting}
use microservice_payment_ser.Repository.{Source}
use microservice_payment_ser.Commands.{handle_transition}
use microservice_payment_ser.Http.Requests
use microservice_payment_ser.Http.Requests.{
  Request, Response, Reading, answered, uncaught, value, answer_if, is_falsy, field, uuid_from,
  or_uncaught, read_request,
}
pub mod Outcomes

-- `error_response` with details
abbrev pub error_response : ℕ → String → Members → Response
error_response status text details = record {
  status = status;
  body = member "error" (str (codes text)) (member "details" (object details) end);
}

abbrev detail : Text → Members
detail text = member "detail" (str text) end

abbrev bad_json : Request → Response
bad_json q = error_response 400 "Invalid JSON body" (detail q.parse_error)

-- The body of a request, once the fields that the view needs are there.
unfoldable pub read_fields : (Members → Bool) → String → Request → Reading Members
unfolding read_request
read_fields absent text q =
    Requests.◌>>=◌ (read_request (bad_json q) q)
      λ x. Requests.◌>>◌ (answer_if (absent x.1) (Requests.refuse 400 (codes text))) (value x.1)

abbrev needs_payment_id : Members → Bool
needs_payment_id m = is_falsy (field "payment_id" m)

abbrev read_payment_id : Request → Reading Members
read_payment_id = read_fields needs_payment_id "Missing required field: payment_id"

module _ (message : Error → Text) where
  -- The `except` clauses that the views share; `wrong_id` answers a `ValueError`.
  abbrev pub transition_failed : String → Json → Response → Error → Response
  transition_failed what received wrong_id (payment_not_found u) =
      error_response 404 "Payment not found" (member "payment_id" received end)
  transition_failed what received wrong_id payments_not_found =
      error_response 404 "Payment not found" (member "payment_id" received end)
  transition_failed what received wrong_id (value_error m) = wrong_id
  transition_failed what received wrong_id e =
      if is_payment_domain_error e
      then error_response 400 "Payment domain error" (detail (message e))
      else error_response 500 what (detail (message e))

  abbrev bad_uuid : Json → Response
  bad_uuid received = error_response 400 "Invalid payment_id UUID format" (
      member "detail" (str (codes "badly formed hexadecimal UUID string"))
        (member "received" received end))

  abbrev bad_uuids : Members → Response
  bad_uuids m = error_response 400 "Invalid UUID format" (
      member "detail" (str (codes "badly formed hexadecimal UUID string")) (
        member "payment_id_received" (field "payment_id" m)
          (member "refund_id_received" (field "refund_id" m) end)))

module _ (c : Codec) (s : Setting) (message : Error → Text) (src : Source) (env : Env) where
  -- The answer after the `try`.
  abbrev pub conclude :
      ℕ → String → (Error → Response) → Result (Unit {0}) × Database → Result Response × Database
  conclude status done failed x = elim x.0 [
    | ok a ↦ (ok (record { status = status; body = member "message" (str (codes done)) end }), x.1)
    | err e ↦ (ok (failed e), x.1)
  ]

  -- The body of the `try`: the id is read, then the handler is called.
  abbrev pub attempt : (Members → Result Command) → Members → Action Database (Unit {0})
  attempt command m = do
    u ← lift (uuid_from c (field "payment_id" m))
    k ← lift (command m)
    handle_transition c s k src env u

  abbrev pub serve :
      (Members → Action Database (Unit {0}))
      → ℕ
      → String
      → (Members → Error → Response)
      → Reading Members
      → Action Database Response
  serve try_ status done failed (answered r) db = (ok r, db)
  serve try_ status done failed (uncaught e) db = (err e, db)
  serve try_ status done failed (value m) db = conclude status done (failed m) (try_ m db)

  abbrev failure : String → Members → Error → Response
  failure what m =
      transition_failed message what (field "payment_id" m)
        (bad_uuid message (field "payment_id" m))

  unfoldable pub process_payment : Request → Action Database Response
  unfolding read_fields handle_transition
  process_payment q =
      serve (attempt (λ m. ok process_command)) 202 "Payment processing initiated"
        (failure "Failed to process payment") (read_payment_id q)

  unfoldable pub succeed_payment : Request → Action Database Response
  unfolding read_fields handle_transition
  succeed_payment q =
      serve (attempt (λ m. ok succeed_command)) 200 "Payment succeeded"
        (failure "Failed to succeed payment") (read_payment_id q)

  abbrev fail_with : Members → Result Command
  fail_with m = elim (optional_text (field "reason" m)) [
    | ok reason ↦ ok (fail_command reason)
    | err e ↦ err e
  ]

  unfoldable pub fail_payment : Request → Action Database Response
  unfolding read_fields handle_transition
  fail_payment q =
      serve (attempt fail_with) 200 "Payment failed" (failure "Failed to fail payment")
        (read_payment_id q)

  unfoldable pub cancel_payment : Request → Action Database Response
  unfolding read_fields handle_transition
  cancel_payment q =
      serve (attempt (λ m. ok cancel_command)) 200 "Payment canceled"
        (failure "Failed to cancel payment") (read_payment_id q)

  abbrev refund_with : Members → Result Command
  refund_with m = elim (uuid_from c (field "refund_id" m)) [
    | ok u ↦ ok (refund_command u)
    | err e ↦ err e
  ]

  unfoldable pub mark_payment_as_refunded : Request → Action Database Response
  unfolding read_fields handle_transition
  mark_payment_as_refunded q =
      serve (attempt refund_with) 200 "Payment marked as refunded"
        (λ m.
          transition_failed message "Failed to mark payment as refunded" (field "payment_id" m)
            (bad_uuids message m))
        (read_fields (λ m. needs_payment_id m || is_falsy (field "refund_id" m))
          "Missing required fields: payment_id, refund_id" q)
