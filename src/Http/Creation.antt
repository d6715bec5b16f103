-- ===== src/Http/Creation.antt =====
-- The four creation views of src/apis/payment/command_views.py over `PaymentCommandHandler`.
use microservice_payment_ser.Base.{none, [], if◌then◌else◌}
use Prim.Native.String.{String}
use microservice_payment_ser.Base.Text.{Text, codes}
use microservice_payment_ser.Base.Json.{Members, Codec, str, end, member}
use microservice_payment_ser.Errors.{
  Uuid, Error, Result, ok, err, key_already_exists, key_reuse_with_different_payload,
  is_payment_domain_error,
}
use microservice_payment_ser.Action.{Action}
use microservice_payment_ser.Payment.Aggregate.{Env}
use microservice_payment_ser.Payment.Events.Serial.{
  as_text, optional_text, option_json, option_uuid,
}
use microservice_payment_ser.EventStore.{Database, Setting}
use microservice_payment_ser.Repository.{Source}
use microservice_payment_ser.Commands.{CreateRequest}
use microservice_payment_ser.Executor.{PaymentView, System, CreationCall}
use microservice_payment_ser.Handler
use microservice_payment_ser.Http.Requests.{
  Request, Response, Printing, Reading, answered, uncaught, value, ◌>>=◌, ◌>>◌, refuse, is_falsy,
  is_null, field, uuid_from, decimal_from, or_bad_format, or_uncaught, optional_id,
  or_bad_reference, read_request, key_of, missing, answer_missing, required,
}

-- The key, the arguments, and the payment that a booking or a refund is for.
pub record Asked (Subject : Type 0) : Type 0 where
  pub key : Text
  pub request : CreateRequest
  pub subject : Subject

abbrev bad_json : Response
bad_json = refuse 400 (codes "Invalid JSON body")

module _ (c : Codec) (p : Printing) where
  -- `create_deposit` and `create_withdrawal`, up to the call of the handler.
  unfoldable pub read_external : Request → Reading (Asked (Unit {0}))
  unfolding read_request
  read_external q = do
    (user, m) ← read_request bad_json q
    key ← key_of q.idempotency_key
    required "wallet_id" (is_falsy (field "wallet_id" m))
    required "amount" (is_null (field "amount" m))
    required "currency" (is_falsy (field "currency" m))
    required "payment_method" (is_falsy (field "payment_method" m))
    wallet_id ← or_bad_format (uuid_from c (field "wallet_id" m))
    user_id ← or_bad_format (uuid_from c user)
    amount ← or_bad_format (decimal_from c p (field "amount" m))
    reference_id ← or_bad_reference (optional_id c (field "reference_id" m))
    payment_id ← or_uncaught (optional_id c (field "payment_id" m))
    currency ← or_uncaught (as_text (field "currency" m))
    payment_method ← or_uncaught (as_text (field "payment_method" m))
    description ← or_uncaught (optional_text (field "description" m))
    value (record {
      key = key;
      request = record {
        wallet_id = wallet_id;
        user_id = user_id;
        amount = amount;
        currency = currency;
        payment_method = payment_method;
        reference_id = reference_id;
        description = description;
        payment_id = payment_id;
      };
      subject = tt;
    })

  -- `create_booking_payment`, up to the call of the handler.
  unfoldable pub read_booking : Request → Reading (Asked Uuid)
  unfolding read_request
  read_booking q = do
    (user, m) ← read_request bad_json q
    key ← key_of q.idempotency_key
    answer_missing (
        missing "wallet_id" (is_falsy (field "wallet_id" m)) (
          missing "booking_id" (is_falsy (field "booking_id" m)) (
            missing "amount" (is_null (field "amount" m)) (
              missing "currency" (is_falsy (field "currency" m))
                (missing "payment_method" (is_falsy (field "payment_method" m)) [])))))
    wallet_id ← or_bad_format (uuid_from c (field "wallet_id" m))
    booking_id ← or_bad_format (uuid_from c (field "booking_id" m))
    user_id ← or_bad_format (uuid_from c user)
    amount ← or_bad_format (decimal_from c p (field "amount" m))
    payment_id ← or_uncaught (optional_id c (field "payment_id" m))
    currency ← or_uncaught (as_text (field "currency" m))
    payment_method ← or_uncaught (as_text (field "payment_method" m))
    description ← or_uncaught (optional_text (field "description" m))
    value (record {
      key = key;
      request = record {
        wallet_id = wallet_id;
        user_id = user_id;
        amount = amount;
        currency = currency;
        payment_method = payment_method;
        reference_id = none;
        description = description;
        payment_id = payment_id;
      };
      subject = booking_id;
    })

  -- `create_refund`, up to the call of the handler; it has no payment method.
  unfoldable pub read_refund : Request → Reading (Asked Uuid)
  unfolding read_request
  read_refund q = do
    (user, m) ← read_request bad_json q
    key ← key_of q.idempotency_key
    answer_missing (
        missing "wallet_id" (is_falsy (field "wallet_id" m)) (
          missing "original_payment_id" (is_falsy (field "original_payment_id" m)) (
            missing "amount" (is_null (field "amount" m))
              (missing "currency" (is_falsy (field "currency" m)) []))))
    wallet_id ← or_bad_format (uuid_from c (field "wallet_id" m))
    original_payment_id ← or_bad_format (uuid_from c (field "original_payment_id" m))
    user_id ← or_bad_format (uuid_from c user)
    amount ← or_bad_format (decimal_from c p (field "amount" m))
    refund_id ← or_uncaught (optional_id c (field "refund_id" m))
    currency ← or_uncaught (as_text (field "currency" m))
    description ← or_uncaught (optional_text (field "description" m))
    value (record {
      key = key;
      request = record {
        wallet_id = wallet_id;
        user_id = user_id;
        amount = amount;
        currency = currency;
        payment_method = [];
        reference_id = none;
        description = description;
        payment_id = refund_id;
      };
      subject = original_payment_id;
    })

  -- `_payment_view_to_dict`: the fields of a view, as `JsonResponse` prints them
  unfoldable pub payment_view_to_dict : PaymentView → Members
  payment_view_to_dict v = member "payment_id" (str (c.uuid_str v.payment_id)) (
      member "wallet_id" (str (c.uuid_str v.wallet_id)) (
        member "user_id" (str (c.uuid_str v.user_id)) (
          member "amount" (str v.amount) (
            member "currency" (str v.currency) (
              member "payment_type" (str v.payment_type) (
                member "payment_method" (str v.payment_method) (
                  member "status" (str v.status) (
                    member "reference_id" (option_uuid c.uuid_str v.reference_id) (
                      member "description" (option_json v.description) (
                        member "created_at" (str (p.json_time v.created_at))
                          (member "updated_at" (str (p.json_time v.updated_at)) end)))))))))))

module _ (message : Error → Text) where
  -- `except PaymentDomainError` and `except Exception`
  abbrev pub creation_failed : String → Error → Response
  creation_failed what e =
      if is_payment_domain_error e then refuse 400 (message e) else refuse 500 (codes what)

  -- the `except` clauses of `create_deposit`
  unfoldable pub deposit_failed : Error → Response
  deposit_failed (key_already_exists k u) = refuse 409 (codes "Idempotency conflict")
  deposit_failed (key_reuse_with_different_payload k) = refuse 409 (codes "Idempotency conflict")
  deposit_failed e = if is_payment_domain_error e then refuse 400 (message e) else record {
    status = 500;
    body =
        member "error" (str (codes "Internal server error"))
          (member "detail" (str (message e)) end);
  }

  unfoldable pub withdrawal_failed : Error → Response
  withdrawal_failed = creation_failed "Failed to create withdrawal"

  unfoldable pub booking_failed : Error → Response
  booking_failed = creation_failed "Failed to create booking payment"

  unfoldable pub refund_failed : Error → Response
  refund_failed = creation_failed "Failed to create refund"

module _ (c : Codec) (p : Printing) (s : Setting) (fingerprint : Members → Text)
    (message : Error → Text) (fetch_view : Uuid → Database → Result PaymentView) where
  -- The `try` around the call of the handler, and the answer.
  abbrev pub respond : (Error → Response) → Result PaymentView × System → Result Response × System
  respond failed x = elim x.0 [
    | ok v ↦ (ok (record { status = 201; body = payment_view_to_dict c p v }), x.1)
    | err e ↦ (ok (failed e), x.1)
  ]

  -- A view: what is read decides whether the handler is called.
  abbrev serve :
      {Subject : Type 0}
      → (Error → Response)
      → (Asked Subject → Action System PaymentView)
      → Reading (Asked Subject)
      → Action System Response
  serve failed call (answered r) sys = (ok r, sys)
  serve failed call (uncaught e) sys = (err e, sys)
  serve failed call (value a) sys = respond failed (call a sys)

  -- The call under the key and the user of the request.
  abbrev pub call_for : CreationCall → Text → Uuid → CreationCall
  call_for call key user_id = record call {
    claim = record call.claim { key = key; user_id = user_id };
  }

  unfoldable pub create_deposit : CreationCall → Env → Request → Action System Response
  unfolding read_external Handler.create_deposit payment_view_to_dict deposit_failed
  create_deposit call env q =
      serve (deposit_failed message)
        (λ a.
          Handler.create_deposit c s fingerprint message fetch_view
            (call_for call a.key a.request.user_id) env a.request)
        (read_external c p q)

  unfoldable pub create_withdrawal : CreationCall → Env → Request → Action System Response
  unfolding read_external Handler.create_withdrawal payment_view_to_dict withdrawal_failed
  create_withdrawal call env q =
      serve (withdrawal_failed message)
        (λ a.
          Handler.create_withdrawal c s fingerprint message fetch_view
            (call_for call a.key a.request.user_id) env a.request)
        (read_external c p q)

  unfoldable pub create_booking_payment : CreationCall → Env → Request → Action System Response
  unfolding read_booking Handler.create_payment_for_booking payment_view_to_dict booking_failed
  create_booking_payment call env q =
      serve (booking_failed message)
        (λ a.
          Handler.create_payment_for_booking c s fingerprint message fetch_view
            (call_for call a.key a.request.user_id) env a.request a.subject)
        (read_booking c p q)

  unfoldable pub create_refund : CreationCall → Source → Env → Request → Action System Response
  unfolding read_refund Handler.create_refund payment_view_to_dict refund_failed
  create_refund call src env q =
      serve (refund_failed message)
        (λ a.
          Handler.create_refund c s fingerprint message fetch_view
            (call_for call a.key a.request.user_id) src env a.request a.subject)
        (read_refund c p q)
