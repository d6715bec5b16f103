-- ===== src/Idempotency/Service.antt =====
-- `IdempotencyCommandService`
-- (src/application/idempotency/services/idempotency_command_service.py), the reads of
-- src/infrastructure/repos/idempontency/idempotence_query_repo.py that it uses, and
-- `IdempotencyCommandHandler` (src/application/idempotency/handlers/idempotency_command_handlers.py),
-- which hands on three errors and hides the others. A call reads the clock once.
use microservice_payment_ser.Base.{
  ℕ, ◌+◌, ◌-◌, Bool, not, ◌||◌, Option, none, some, length, leb, ltb, if◌then◌else◌,
}
use microservice_payment_ser.Base.Text.{Text, is_blank, strip, text_eq}
use microservice_payment_ser.Errors.{
  Uuid, Time, Error, Result, ok, err, key_expired, key_already_used, key_in_progress, key_not_found,
  key_reuse_with_different_payload, key_too_long, invalid_key_format, expiration_in_past,
  runtime_error,
}
use microservice_payment_ser.Action.{Action, pure, raise, lift, rethrow, ◌>>=◌, ◌>>◌, raise_when}
use microservice_payment_ser.Idempotency.Key.{
  IdempotencyKey, StoredResponse, KeyRequest, hours, is_pending, is_expired, create_new, post_init,
  get_replay_response,
}
use microservice_payment_ser.Idempotency.Key
use microservice_payment_ser.Idempotency.Store.{
  Keys, find, create, update, delete_expired_before, delete_by_user, Claim, replay, acquired,
  fingerprint_mismatch, already_locked, expired, ClaimRequest, claim_or_replay,
}
pub mod Replay
pub mod Granted

-- `get_by_key_and_user`
unfoldable pub get_by_key_and_user : Text → Uuid → Action Keys IdempotencyKey
unfolding post_init
get_by_key_and_user key user ks = elim (find key user ks) [
  | none ↦ (err (key_not_found key), ks)
  | some row ↦ (post_init row, ks)
]

-- The query `get_replay_response`
unfoldable pub replay_response : Time → Text → Uuid → Action Keys (Option StoredResponse)
unfolding post_init get_replay_response
replay_response now key user ks = elim (find key user ks) [
  | none ↦ (ok none, ks)
  | some row ↦ elim (post_init row) [
    | ok k ↦ (ok (get_replay_response now k), ks)
    | err e ↦ (err e, ks)
  ]
]

-- The answer to the result of a claim: nothing when the caller is to do the work.
abbrev pub answer : Text → Claim → Result (Option StoredResponse)
answer key (replay r) = ok (some r)
answer key (acquired k) = ok none
answer key already_locked = err (key_in_progress key)
answer key expired = err (key_expired key)
answer key fingerprint_mismatch = err (key_reuse_with_different_payload key)

-- `DEFAULT_LOCK_LEASE_SECONDS`
abbrev pub with_lease : ClaimRequest → ClaimRequest
with_lease q = record q { lease = 30 }

-- What follows the replay that takes no lock.
abbrev pub claim_and_answer : Time → ClaimRequest → Action Keys (Option StoredResponse)
claim_and_answer now q = do result ← claim_or_replay now (with_lease q); lift (answer q.key result)

-- `process_request`
unfoldable pub process_request : Time → ClaimRequest → Action Keys (Option StoredResponse)
unfolding replay_response
process_request now q ks =
    let (stored, ks') = replay_response now q.key q.user_id ks in
    elim stored [
      | err e ↦ (err e, ks')
      | ok answered ↦ elim answered [
        | some r ↦ (ok (some r), ks')
        | none ↦ claim_and_answer now q ks'
      ]
    ]

-- The body that `record_success` and `record_failure` share.
abbrev pub record_outcome :
    (IdempotencyKey → Result IdempotencyKey) → Time → Text → Uuid → Action Keys (Unit {0})
record_outcome finish now key user = do
  k ← get_by_key_and_user key user
  raise_when (is_expired now k) (key_expired key)
  raise_when (not (is_pending k.status)) (key_already_used key)
  final ← lift (finish k)
  _ ← update now final
  pure tt

unfoldable pub record_success : Time → Text → Uuid → StoredResponse → Action Keys (Unit {0})
unfolding get_by_key_and_user update Key.record_success
record_success now key user r = record_outcome (Key.record_success now r) now key user

unfoldable pub record_failure : Time → Text → Uuid → StoredResponse → Action Keys (Unit {0})
unfolding get_by_key_and_user update Key.record_failure
record_failure now key user r = record_outcome (Key.record_failure now r) now key user

-- `create_key`'s `except Exception`: somebody else may have made the key
abbrev existing_key : KeyRequest → Action Keys IdempotencyKey
existing_key q = do
  existing ← get_by_key_and_user q.key q.user_id
  raise_when (not (text_eq existing.fingerprint q.fingerprint))
      (key_reuse_with_different_payload q.key)
  pure existing

abbrev create_or_existing : Time → KeyRequest → IdempotencyKey → Action Keys IdempotencyKey
create_or_existing now q k ks =
    let (r, ks') = create now k ks in elim r [ ok row ↦ (ok row, ks') | err e ↦ existing_key q ks' ]

-- The arguments of `create_new`: `create_key` strips the key before it passes it on.
abbrev stripped_request : Time → ClaimRequest → ℕ → KeyRequest
stripped_request now q ttl_hours = record {
  key = strip q.key;
  user_id = q.user_id;
  fingerprint = q.fingerprint;
  expires_at = now + hours ttl_hours;
  new_id = q.new_id;
}

-- `create_key`; the locker and the lease of the request are not used
unfoldable pub create_key : Time → ClaimRequest → ℕ → Action Keys IdempotencyKey
unfolding is_blank strip create_new create get_by_key_and_user
create_key now q ttl_hours = do
  raise_when (is_blank q.key) (invalid_key_format q.key)
  raise_when (ltb 255 (length (strip q.key))) (key_too_long (strip q.key) 255)
  raise_when (leb (now + hours ttl_hours) now) (expiration_in_past (now + hours ttl_hours))
  k ← lift (create_new now (stripped_request now q ttl_hours))
  create_or_existing now (stripped_request now q ttl_hours) k

-- `cleanup_expired_keys`
unfoldable pub cleanup_expired_keys : Time → ℕ → Action Keys ℕ
unfolding delete_expired_before
cleanup_expired_keys now older_than_hours = delete_expired_before (now - hours older_than_hours)

-- `delete_user_keys`
unfoldable pub delete_user_keys : Uuid → Action Keys ℕ
unfolding delete_by_user
delete_user_keys user = delete_by_user user

-- `except Exception` of `begin_request_processing`, behind the three errors that it hands on
abbrev pub begin_error : Error → Error
begin_error (key_in_progress k) = key_in_progress k
begin_error (key_not_found k) = key_not_found k
begin_error (key_reuse_with_different_payload k) = key_reuse_with_different_payload k
begin_error _ = runtime_error "Idempotency processing failed"

unfoldable pub begin_request_processing : Time → ClaimRequest → Action Keys (Option StoredResponse)
unfolding process_request
begin_request_processing now q = rethrow begin_error (process_request now q)

abbrev pub record_error : Error → Error
record_error (key_not_found k) = key_not_found k
record_error _ = runtime_error "Failed to record the response"

unfoldable pub record_successful_response :
    Time → Text → Uuid → StoredResponse → Action Keys (Unit {0})
unfolding record_success
record_successful_response now key user r = rethrow record_error (record_success now key user r)

unfoldable pub record_failed_response : Time → Text → Uuid → StoredResponse → Action Keys (Unit {0})
unfolding record_failure
record_failed_response now key user r = rethrow record_error (record_failure now key user r)

-- the deprecated `create_idempotency_key`; the fingerprint of the payload comes with the request
abbrev pub create_error : Error → Error
create_error (key_reuse_with_different_payload k) = key_reuse_with_different_payload k
create_error _ = runtime_error "Failed to create idempotency key"

unfoldable pub create_idempotency_key : Time → ClaimRequest → Result ℕ → Action Keys IdempotencyKey
unfolding create_key
create_idempotency_key now q ttl_hours =
    rethrow create_error (do span ← lift ttl_hours; create_key now q span)

-- the handler's `cleanup_expired_keys`
unfoldable pub clean_up_keys : Time → Result ℕ → Action Keys ℕ
unfolding cleanup_expired_keys
clean_up_keys now older_than_hours =
    rethrow (λ e. runtime_error "Failed to clean up expired idempotency keys")
      (do span ← lift older_than_hours; cleanup_expired_keys now span)

unfoldable pub delete_all_keys_for_user : Uuid → Action Keys ℕ
unfolding delete_user_keys
delete_all_keys_for_user user =
    rethrow (λ e. runtime_error "Failed to delete keys") (delete_user_keys user)
