-- ===== src/Http/Keys.antt =====
-- The views of src/apis/idempotency/command_views.py over `IdempotencyCommandHandler`, for testing
-- and cleaning up. A field that holds a JSON value of another kind is refused where the source would
-- carry it along.
use microservice_payment_ser.Base.{ℕ, Bool, not, Option, none, some}
use Prim.Native.String.{String}
use microservice_payment_ser.Base.Text.{Text, codes, strip}
use microservice_payment_ser.Base.Json.{
  Json, Members, Codec, null, num, str, object, end, member, get,
}
use microservice_payment_ser.Errors.{
  Uuid, Time, Error, Result, ok, err, value_error, type_error, key_already_exists, key_not_found,
  key_reuse_with_different_payload,
}
use microservice_payment_ser.Action.{Action}
use microservice_payment_ser.Payment.Events.Serial.{as_text, as_number, item_or}
use microservice_payment_ser.Idempotency.Key.{
  IdempotencyKey, IdempotencyStatus, StoredResponse, pending, completed, failed, seconds,
}
use microservice_payment_ser.Idempotency.Store.{Keys, ClaimRequest}
use microservice_payment_ser.Idempotency.Service.{
  create_idempotency_key, begin_request_processing, record_failed_response, clean_up_keys,
}
use microservice_payment_ser.Http.Requests.{
  Request, Response, Reading, answered, uncaught, value, ◌>>=◌, ◌>>◌, refuse, answer_if, is_falsy,
  field, uuid_from, or_uncaught, is_post, user_of, body_of,
}
pub mod Recorded
mod Tests

-- `except ValueError` around `UUID(request.user_id)`
abbrev pub or_unauthorized {ℓ} : {A : Type ℓ} → Result A → Reading A
or_unauthorized (ok a) = value a
or_unauthorized (err (value_error m)) = answered (refuse 401 (codes m))
or_unauthorized (err e) = uncaught e

-- `not isinstance(payload, dict)`
abbrev pub as_payload : Json → Reading Members
as_payload (object m) = value m
as_payload _ = answered (refuse 400 (codes "'payload' must be a JSON object"))

-- `not isinstance(key, str)`
abbrev pub as_key : Json → Reading Text
as_key (str s) = value s
as_key _ = answered (refuse 400 (codes "'key' must be a string (UUID recommended)"))

-- `if x is None: x = default`
abbrev pub members_or : Members → Json → Result Members
members_or default null = ok default
members_or default (object m) = ok m
members_or default _ = err (type_error "a JSON object")

-- `status.name`
abbrev pub key_status_name : IdempotencyStatus → Text
key_status_name pending = codes "PENDING"
key_status_name completed = codes "COMPLETED"
key_status_name failed = codes "FAILED"

-- What a request for a new key, or for the work under a key, asks for.
pub record KeyAsked : Type 0 where
  pub key : Text
  pub user_id : Uuid
  pub payload : Members
  pub locker_id : Text
  pub ttl_hours : Result ℕ

pub record FailureAsked : Type 0 where
  pub key : Text
  pub user_id : Uuid
  pub response : StoredResponse

module _ (c : Codec) where
  -- The method, the user and the body: `JSONDecodeError` is a `ValueError`, which the first `except`
  -- catches, so a body that is no JSON is answered 401.
  unfoldable pub read_keyed : Request → Reading (Uuid × Members)
  read_keyed q = do
    answer_if (not (is_post q)) (refuse 405 (codes "Method not allowed"))
    user ← user_of q.user_id
    id ← or_unauthorized (uuid_from c user)
    m ← body_of (refuse 401 q.parse_error) q.body
    value (id, m)

  -- `create_test_idempotency_key`, up to the call of the handler
  unfoldable pub read_new_key : Request → Reading KeyAsked
  unfolding read_keyed strip
  read_new_key q = do
    (user, m) ← read_keyed q
    answer_if (is_falsy (field "key" m)) (refuse 400 (codes "Missing 'key' field"))
    key ← as_key (field "key" m)
    payload ← as_payload (item_or "payload" (object end) m)
    value (record {
      key = strip key;
      user_id = user;
      payload = payload;
      locker_id = codes "";
      ttl_hours = as_number (item_or "ttl_hours" (num 24) m);
    })

  -- `begin_test_processing`, up to the call of the handler; `fresh` is the UUID of the locker
  unfoldable pub read_begin : Uuid → Request → Reading KeyAsked
  unfolding read_keyed
  read_begin fresh q = do
    (user, m) ← read_keyed q
    answer_if (is_falsy (field "key" m)) (refuse 400 (codes "Missing 'key'"))
    payload ← as_payload (item_or "payload" (object end) m)
    key ← or_uncaught (as_text (field "key" m))
    locker ← or_uncaught (as_text (item_or "locker_id" (str (c.uuid_str fresh)) m))
    value (record {
      key = key;
      user_id = user;
      payload = payload;
      locker_id = locker;
      ttl_hours = ok 24;
    })

  -- `record_test_failure`, up to the call of the handler, and the defaults of that call
  unfoldable pub read_failure : Request → Reading FailureAsked
  unfolding read_keyed
  read_failure q = do
    (user, m) ← read_keyed q
    answer_if (is_falsy (field "key" m)) (refuse 400 (codes "Missing 'key'"))
    key ← or_uncaught (as_text (field "key" m))
    status ← or_uncaught (as_number (item_or "status_code" (num 400) m))
    headers ← or_uncaught (members_or end (item_or "headers" (object end) m))
    body ← or_uncaught (
        members_or (member "error" (str (codes "Processing failed")) end)
          (item_or "body" (object (member "error" (str (codes "Simulated failure")) end)) m))
    value (record {
      key = key;
      user_id = user;
      response = record { status_code = status; headers = headers; body = body };
    })

-- `cleanup_expired_keys_view` reads no user, and takes a body that is no JSON for an empty one.
unfoldable pub read_cleanup : Request → Reading (Result ℕ)
read_cleanup q = do
  answer_if (not (is_post q)) (refuse 405 (codes "Method not allowed"))
  m ← body_of (refuse 500 q.parse_error) (some (elim q.body [ none ↦ object end | some j ↦ j ]))
  value (as_number (item_or "older_than_hours" (num 24) m))

module _ (c : Codec) (fingerprint : Members → Text) (message : Error → Text) where
  -- A view: what is read decides whether the handler is called.
  abbrev pub serve_keys :
      {Asked : Type 0} → (Asked → Action Keys Response) → Reading Asked → Action Keys Response
  serve_keys call (answered r) ks = (ok r, ks)
  serve_keys call (uncaught e) ks = (err e, ks)
  serve_keys call (value a) ks = call a ks

  -- `except Exception`
  abbrev pub key_internal_error : Error → Response
  key_internal_error e = record {
    status = 500;
    body = member "error" (str (codes "Internal error")) (member "detail" (str (message e)) end);
  }

  -- The `try` around the call of the handler, and the answer.
  abbrev pub answer_with :
      {A : Type 0} → (A → Response) → (Error → Response) → Action Keys A → Action Keys Response
  answer_with good bad call ks =
      let (r, ks') = call ks in elim r [ ok a ↦ (ok (good a), ks') | err e ↦ (ok (bad e), ks') ]

  abbrev pub claim_for : Uuid → KeyAsked → ClaimRequest
  claim_for new_id a = record {
    key = a.key;
    user_id = a.user_id;
    fingerprint = fingerprint a.payload;
    locker_id = a.locker_id;
    lease = 30;
    new_id = new_id;
  }

  abbrev pub created_key : IdempotencyKey → Response
  created_key k = record {
    status = 201;
    body = member "key" (str k.key) (
        member "user_id" (str (c.uuid_str k.user_id)) (
          member "created_at" (str (c.isoformat k.created_at)) (
            member "expires_at" (str (c.isoformat k.expires_at))
              (member "status" (str (key_status_name k.status)) end))));
  }

  abbrev pub key_creation_error : Error → Response
  key_creation_error (key_already_exists k u) = refuse 409 (codes "Idempotency key already exists")
  key_creation_error (key_reuse_with_different_payload k) =
      refuse 409 (message (key_reuse_with_different_payload k))
  key_creation_error e = key_internal_error e

  unfoldable pub create_test_idempotency_key : Time → Uuid → Request → Action Keys Response
  unfolding read_new_key create_idempotency_key
  create_test_idempotency_key now new_id q =
      serve_keys
        (λ a.
          answer_with created_key key_creation_error
            (create_idempotency_key now (claim_for new_id a) a.ttl_hours))
        (read_new_key c q)

  -- `cached_response`: what has been stored, or `None`
  abbrev pub cached_json : Option StoredResponse → Json
  cached_json none = null
  cached_json (some r) = object (
      member "status_code" (num r.status_code)
        (member "headers" (object r.headers) (member "body" (object r.body) end)))

  abbrev pub begun_response : Text → Option StoredResponse → Response
  begun_response used r = record {
    status = 200;
    body = member "cached_response" (cached_json r) (member "fingerprint_used" (str used) end);
  }

  abbrev pub begin_failed : Error → Response
  begin_failed (key_reuse_with_different_payload k) =
      refuse 409 (message (key_reuse_with_different_payload k))
  begin_failed (key_not_found k) = refuse 404 (codes "Idempotency key not found")
  begin_failed e = key_internal_error e

  unfoldable pub begin_test_processing : Time → Uuid → Uuid → Request → Action Keys Response
  unfolding read_begin begin_request_processing
  begin_test_processing now new_id fresh q =
      serve_keys
        (λ a.
          answer_with (begun_response (fingerprint a.payload)) begin_failed
            (begin_request_processing now (claim_for new_id a)))
        (read_begin c fresh q)

  abbrev pub recorded_body : Response
  recorded_body = record {
    status = 200;
    body = member "message" (str (codes "Failure recorded")) end;
  }

  abbrev pub recording_failed : Error → Response
  recording_failed (key_not_found k) = refuse 404 (codes "Idempotency key not found")
  recording_failed e = key_internal_error e

  unfoldable pub record_test_failure : Time → Request → Action Keys Response
  unfolding read_failure record_failed_response
  record_test_failure now q =
      serve_keys
        (λ a.
          answer_with (λ (u : Unit {0}). recorded_body) recording_failed
            (record_failed_response now a.key a.user_id a.response))
        (read_failure c q)

  abbrev pub cleanup_failed : Error → Response
  cleanup_failed e = record {
    status = 500;
    body = member "error" (str (codes "Cleanup failed")) (member "detail" (str (message e)) end);
  }

  unfoldable pub cleanup_expired_keys_view : Time → Request → Action Keys Response
  unfolding read_cleanup clean_up_keys
  cleanup_expired_keys_view now q =
      serve_keys
        (λ older.
          answer_with (λ n. record { status = 200; body = member "deleted_count" (num n) end })
            cleanup_failed (clean_up_keys now older))
        (read_cleanup q)
