-- ===== src/Http/Keys/Tests.antt =====
-- The test views of idempotency keys at concrete inputs.
use microservice_payment_ser.Base.{◌≡◌, refl, false, none, some, [], ◌∷◌, arith}
use microservice_payment_ser.Base.Text.{Text, codes, is_blank}
use microservice_payment_ser.Base.Json.{Members, num, str, object, end, member}
use microservice_payment_ser.Errors.{Error, ok}
use microservice_payment_ser.Idempotency.Key.{IdempotencyKey, StoredResponse, pending}
use microservice_payment_ser.Idempotency.Store.{Keys}
use microservice_payment_ser.Samples.{plain}
use microservice_payment_ser.Http.Requests.{Request, refuse}
use microservice_payment_ser.Http.Requests
use microservice_payment_ser.Http.Keys.{
  KeyAsked, FailureAsked, read_begin, read_failure, record_test_failure, begin_test_processing,
  begun_response, recorded_body, cleanup_expired_keys_view, create_test_idempotency_key,
}
use microservice_payment_ser.Http.Keys.Recorded

abbrev open_key : IdempotencyKey
open_key = record {
  key = codes "k1";
  user_id = 2;
  fingerprint = codes "abc";
  expires_at = 86400000000;
  status = pending;
  response = none;
  request_id = none;
  correlation_id = none;
  locked_until = none;
  locked_by = none;
  idempotency_id = 900;
  created_at = 0;
  updated_at = 0;
}

abbrev keys : Keys
keys = open_key ∷ []

abbrev failing : Request
failing = record {
  http_method = codes "POST";
  user_id = some (str (2 ∷ []));
  body = some (object (member "key" (str (codes "k1")) (member "status_code" (num 503) end)));
  parse_error = [];
  idempotency_key = none;
}

abbrev garbled : Request
garbled = record failing { body = none; parse_error = codes "Expecting value" }

abbrev failed_response : StoredResponse
failed_response = record {
  status_code = 503;
  headers = end;
  body = member "error" (str (codes "Simulated failure")) end;
}

abbrev failure_asked : FailureAsked
failure_asked = record { key = codes "k1"; user_id = 2; response = failed_response }

abbrev begin_asked : KeyAsked
begin_asked = record {
  key = codes "k1";
  user_id = 2;
  payload = end;
  locker_id = 77 ∷ [];
  ttl_hours = ok 24;
}

abbrev hashed : Members → Text
hashed m = codes "abc"

abbrev mute : Error → Text
mute e = []

reads_failure : read_failure plain failing ≡ Requests.value failure_asked
unfolding read_failure
reads_failure = refl

reads_begin : read_begin plain 77 failing ≡ Requests.value begin_asked
unfolding read_begin
reads_begin = refl

named : is_blank (codes "k1") ≡ false
unfolding is_blank
named = refl

recorded_then_begun_example :
    (ks : Keys) × (record_test_failure plain hashed mute 5 failing keys
      ≡ (ok (recorded_body plain hashed mute), ks))
    × (begin_test_processing plain hashed mute 9 901 77 failing ks
        ≡ (ok (begun_response plain hashed mute (codes "abc") (some failed_response)), ks))
recorded_then_begun_example =
    Recorded.recorded_then_begun plain hashed mute 5 9 901 77 failing failing failure_asked
      begin_asked open_key keys reads_failure reads_begin refl named refl (omega arith)
      (omega arith) refl refl refl refl

-- A body that is no JSON is answered 401 by the view that creates a key, although its second
-- `except` has 400 for it.
garbled_unauthorized :
    create_test_idempotency_key plain hashed mute 5 901 garbled keys
    ≡ (ok (refuse 401 (codes "Expecting value")), keys)
unfolding create_test_idempotency_key
garbled_unauthorized = refl

-- Whoever asks, without a user, cleans up the keys that expired a day ago.
anyone_cleans_up :
    (cleanup_expired_keys_view plain hashed mute 999999999999999
      (record garbled { user_id = none })
      keys).1
    ≡ []
unfolding cleanup_expired_keys_view
anyone_cleans_up = refl
