-- ===== src/Idempotency/Key.antt =====
-- `IdempotencyKey` of src/domain/idempotency/models.py. The clock is an argument, in microseconds.
use microservice_payment_ser.Base.{
  ℕ, ◌+◌, ◌-◌, ◌*◌, ◌%◌, Bool, true, false, not, ◌&&◌, ◌||◌, Option, none, some, leb, ltb,
  if◌then◌else◌,
}
use microservice_payment_ser.Base.Text.{Text, is_blank, strip}
use microservice_payment_ser.Base.Json.{Members}
use microservice_payment_ser.Errors.{
  Uuid, Time, Error, Result, ok, err, ◌>>=◌, ◌>>◌, raise_if, value_error, invalid_state_transition,
}
pub mod Lifecycle

pub data IdempotencyStatus : Type 0 where
  pending completed failed : IdempotencyStatus

pub record StoredResponse : Type 0 where
  pub status_code : ℕ
  pub headers : Members
  pub body : Members

pub record IdempotencyKey : Type 0 where
  pub key : Text
  pub user_id : Uuid
  pub fingerprint : Text
  pub expires_at : Time
  pub status : IdempotencyStatus
  pub response : Option StoredResponse
  pub request_id : Option Uuid
  pub correlation_id : Option Uuid
  pub locked_until : Option Time
  pub locked_by : Option Text
  pub idempotency_id : Uuid
  pub created_at : Time
  pub updated_at : Time

abbrev pub seconds : ℕ → Time
seconds n = n * 1000000

abbrev pub hours : ℕ → Time
hours n = n * 3600000000

-- `__post_init__`
unfoldable pub post_init : IdempotencyKey → Result IdempotencyKey
unfolding is_blank
post_init k =
    if is_blank k.key
    then err (value_error "Idempotency key must be a non-empty string")
    else ok (record k { updated_at = k.created_at })

abbrev pub is_pending : IdempotencyStatus → Bool
is_pending pending = true
is_pending _ = false

-- `new_status in _ALLOWED_TRANSITIONS.get(status)`
abbrev pub allowed : IdempotencyStatus → IdempotencyStatus → Bool
allowed pending completed = true
allowed pending failed = true
allowed _ _ = false

-- `_transition_to`
unfoldable pub transition_to : IdempotencyKey → IdempotencyStatus → Result (Unit {0})
transition_to k new_status =
    raise_if (not (allowed k.status new_status)) (invalid_state_transition k.key "transition")

-- `is_lock_expired`
abbrev pub is_lock_expired : Time → IdempotencyKey → Bool
is_lock_expired now k = elim k.locked_until [ none ↦ true | some t ↦ leb t now ]

-- `is_expired`
abbrev pub is_expired : Time → IdempotencyKey → Bool
is_expired now k = leb k.expires_at now

abbrev pub has_lock : IdempotencyKey → Bool
has_lock k = elim k.locked_until [ none ↦ false | some t ↦ true ]

-- `mark_in_progress`: the lease runs from the whole second
unfoldable pub mark_in_progress : Time → Text → ℕ → IdempotencyKey → Result IdempotencyKey
mark_in_progress now locker_id lease k = do
  raise_if (not (is_pending k.status)) (invalid_state_transition k.key "mark in progress")
  raise_if (has_lock k && not (is_lock_expired now k))
      (value_error "Key is currently locked by another worker")
  ok (record k {
    locked_until = some (now - now % 1000000 + seconds lease);
    locked_by = some locker_id;
    updated_at = now;
  })

-- `_clear_lock`
abbrev pub clear_lock : IdempotencyKey → IdempotencyKey
clear_lock k = record k { locked_until = none; locked_by = none }

-- The body that `record_success` and `record_failure` share.
abbrev pub finalize : Time → IdempotencyStatus → StoredResponse → IdempotencyKey → IdempotencyKey
finalize now status r k =
    clear_lock (record k { status = status; response = some r; updated_at = now })

unfoldable pub record_success : Time → StoredResponse → IdempotencyKey → Result IdempotencyKey
unfolding transition_to
record_success now r k = do transition_to k completed; ok (finalize now completed r k)

unfoldable pub record_failure : Time → StoredResponse → IdempotencyKey → Result IdempotencyKey
unfolding transition_to
record_failure now r k = do transition_to k failed; ok (finalize now failed r k)

-- `get_replay_response`
unfoldable pub get_replay_response : Time → IdempotencyKey → Option StoredResponse
get_replay_response now k =
    if is_expired now k then none else (if is_pending k.status then none else k.response)

-- The arguments of `create_new` that the callers give, and the id that `uuid4` gives.
pub record KeyRequest : Type 0 where
  pub key : Text
  pub user_id : Uuid
  pub fingerprint : Text
  pub expires_at : Time
  pub new_id : Uuid

-- `create_new`: the key is stored without the spaces around it
unfoldable pub create_new : Time → KeyRequest → Result IdempotencyKey
unfolding is_blank post_init strip
create_new now q = do
  raise_if (is_blank q.key) (value_error "Idempotency key must be a non-empty string")
  raise_if (leb q.expires_at now) (value_error "Expiration time must be in the future")
  post_init (record {
    key = strip q.key;
    user_id = q.user_id;
    fingerprint = q.fingerprint;
    expires_at = q.expires_at;
    status = pending;
    response = none;
    request_id = none;
    correlation_id = none;
    locked_until = none;
    locked_by = none;
    idempotency_id = q.new_id;
    created_at = now;
    updated_at = now;
  })
