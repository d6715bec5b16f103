-- ===== src/Idempotency/Store.antt =====
-- `DjangoIdempotencyKeyCommandRepository`
-- (src/infrastructure/repos/idempontency/idempotence_command_repo.py) over the table of
-- src/infrastructure/apps/idempontence/models.py, whose rows mirror the domain object, and the command
-- src/infrastructure/apps/outbox/management/commands/release_stuck_idempotency_locks.py.
use microservice_payment_ser.Base.{
  ℕ, ◌+◌, ◌-◌, ◌≡◌, Bool, true, false, not, ◌&&◌, ◌||◌, Option, none, some, List, [], ◌∷◌, ◌++◌,
  any, filter_by, length, leb, ltb, ◌==◌, if◌then◌else◌,
}
use microservice_payment_ser.Base.Text.{Text, text_eq}
use microservice_payment_ser.Errors.{
  Uuid, Time, Error, Result, ok, err, value_error, integrity_error, key_already_exists,
  key_not_found, key_expired, key_already_used, key_already_locked, response_missing, data_error,
}
use microservice_payment_ser.Action.{Action, pure, raise, lift, modify, ◌>>=◌, ◌>>◌, raise_when}
use microservice_payment_ser.Idempotency.Key.{
  IdempotencyKey, IdempotencyStatus, StoredResponse, KeyRequest, pending, seconds, hours,
  is_pending, create_new, mark_in_progress, post_init, get_replay_response,
}
pub mod Claims

abbrev pub Keys : Type 0
Keys = List IdempotencyKey

-- `get(key=key, user_id=user_id)`
abbrev pub matches : Text → Uuid → IdempotencyKey → Bool
matches key user k = text_eq k.key key && k.user_id == user

abbrev pub find : Text → Uuid → Keys → Option IdempotencyKey
find key user [] = none
find key user (k ∷ ks) = if matches key user k then some k else find key user ks

-- The constraint `no_locks_on_terminal_states`.
abbrev pub satisfies : IdempotencyKey → Bool
satisfies k = is_pending k.status || elim k.locked_until [
  | none ↦ elim k.locked_by [ none ↦ true | some s ↦ false ]
  | some t ↦ false
]

-- `save(force_insert=True)`: the database dates the row
unfoldable pub insert : Time → IdempotencyKey → Action Keys IdempotencyKey
insert now k ks =
    let row = record k { created_at = now; updated_at = now } in
    if ltb 255 (length k.key)
    then (err data_error, ks)
    else if any (matches k.key k.user_id) ks
        || any (λ j. j.idempotency_id == k.idempotency_id) ks
        || not (satisfies k)
    then (err integrity_error, ks)
    else (ok row, ks ++ row ∷ [])

-- Writing a row back, which its key and user tell apart.
unfoldable pub replace : Text → Uuid → (IdempotencyKey → IdempotencyKey) → Keys → Keys
replace key user change [] = []
replace key user change (k ∷ ks) =
    if matches key user k then change k ∷ ks else k ∷ replace key user change ks

-- `except IntegrityError`
abbrev pub insert_error : IdempotencyKey → Error → Error
insert_error k integrity_error = key_already_exists k.key k.user_id
insert_error k e = e

-- `create`
unfoldable pub create : Time → IdempotencyKey → Action Keys IdempotencyKey
unfolding insert
create now k ks =
    let (r, ks') = insert now k ks in
    elim r [ ok row ↦ (post_init row, ks') | err e ↦ (err (insert_error k e), ks') ]

-- The fields that `update` copies into the row.
abbrev pub copy_into : Time → IdempotencyKey → IdempotencyKey → IdempotencyKey
copy_into now k row = record row {
  fingerprint = k.fingerprint;
  expires_at = k.expires_at;
  status = k.status;
  locked_until = k.locked_until;
  locked_by = k.locked_by;
  request_id = k.request_id;
  correlation_id = k.correlation_id;
  response = k.response;
  updated_at = now;
}

-- `update`
unfoldable pub update : Time → IdempotencyKey → Action Keys IdempotencyKey
unfolding replace
update now k ks = elim (find k.key k.user_id ks) [
  | none ↦ (err (key_not_found k.key), ks)
  | some row ↦
      if satisfies (copy_into now k row)
      then (post_init (copy_into now k row), replace k.key k.user_id (copy_into now k) ks)
      else (err integrity_error, ks)
]

-- `locked_until and locked_until > now`
abbrev pub is_locked : Time → IdempotencyKey → Bool
is_locked now k = elim k.locked_until [ none ↦ false | some t ↦ ltb now t ]

-- `save(update_fields=["locked_until", "locked_by", "updated_at"])`
abbrev pub set_lock : Time → Option Time → Option Text → IdempotencyKey → IdempotencyKey
set_lock now until by k = record k { locked_until = until; locked_by = by; updated_at = now }

-- `lock`
unfoldable pub lock : Time → Text → Uuid → Text → ℕ → Action Keys IdempotencyKey
unfolding replace
lock now key user locker_id duration ks = elim (find key user ks) [
  | none ↦ (err (key_not_found key), ks)
  | some row ↦
      let locked = set_lock now (some (now + seconds duration)) (some locker_id) in
      if leb row.expires_at now
      then (err (key_expired key), ks)
      else if not (is_pending row.status)
      then (err (key_already_used key), ks)
      else if is_locked now row
      then (err (key_already_locked key row.locked_by), ks)
      else (post_init (locked row), replace key user locked ks)
]

-- `unlock`
unfoldable pub unlock : Time → Text → Uuid → Action Keys (Unit {0})
unfolding replace
unlock now key user ks = elim (find key user ks) [
  | none ↦ (err (key_not_found key), ks)
  | some row ↦
      if is_locked now row
      then (ok tt, replace key user (set_lock now none none) ks)
      else (err (value_error "not currently locked"), ks)
]

-- `force_unlock`
unfoldable pub force_unlock : Time → Text → Uuid → Action Keys (Unit {0})
unfolding replace
force_unlock now key user ks = elim (find key user ks) [
  | none ↦ (err (key_not_found key), ks)
  | some row ↦
      if is_locked now row
      then (err (value_error "Cannot force unlock non-expired lock"), ks)
      else (ok tt, replace key user (set_lock now none none) ks)
]

-- `delete`
unfoldable pub delete : Text → Uuid → Action Keys (Unit {0})
delete key user ks = elim (find key user ks) [
  | none ↦ (err (key_not_found key), ks)
  | some row ↦ (ok tt, filter_by (λ k. not (matches key user k)) ks)
]

-- `delete_expired_before`: the number of rows deleted
unfoldable pub delete_expired_before : Time → Action Keys ℕ
delete_expired_before cutoff ks = (
  ok (length (filter_by (λ k. ltb k.expires_at cutoff) ks)),
  filter_by (λ k. not (ltb k.expires_at cutoff)) ks,
)

-- `delete_by_user`
unfoldable pub delete_by_user : Uuid → Action Keys ℕ
delete_by_user user ks = (
  ok (length (filter_by (λ k. k.user_id == user) ks)),
  filter_by (λ k. not (k.user_id == user)) ks,
)

-- The command `release_stuck_idempotency_locks`: the number of rows it has released is printed.
unfoldable pub release_stuck : Time → Keys → Keys
release_stuck now [] = []
release_stuck now (k ∷ ks) =
    let stuck = is_pending k.status && elim k.locked_until [ none ↦ false | some t ↦ ltb t now ] in
    (if stuck then record k { locked_until = none; locked_by = none } else k) ∷ release_stuck now ks

-- `IdempotencyClaimResult`
pub data Claim : Type 0 where
  replay : StoredResponse → Claim
  acquired : IdempotencyKey → Claim
  fingerprint_mismatch already_locked expired : Claim

-- The arguments of `claim_or_replay`, and the id that `uuid4` gives to a new key.
pub record ClaimRequest : Type 0 where
  pub key : Text
  pub user_id : Uuid
  pub fingerprint : Text
  pub locker_id : Text
  pub lease : ℕ
  pub new_id : Uuid

abbrev key_request : Time → ClaimRequest → KeyRequest
key_request now q = record {
  key = q.key;
  user_id = q.user_id;
  fingerprint = q.fingerprint;
  expires_at = now + hours 24;
  new_id = q.new_id;
}

-- the first use of a key
unfoldable pub claim_new : Time → ClaimRequest → Action Keys Claim
unfolding create_new mark_in_progress insert post_init
claim_new now q = do
  fresh ← lift (create_new now (key_request now q))
  marked ← lift (mark_in_progress now q.locker_id q.lease fresh)
  row ← insert now marked
  k ← lift (post_init row)
  pure (acquired k)

abbrev pub claim_lock : Time → ClaimRequest → IdempotencyKey → IdempotencyKey
claim_lock now q = set_lock now (some (now + seconds q.lease)) (some q.locker_id)

-- a row with a final status
abbrev claim_final : ClaimRequest → IdempotencyKey → Action Keys Claim
claim_final q row ks =
    if not (text_eq row.fingerprint q.fingerprint)
    then (ok fingerprint_mismatch, ks)
    else elim row.response [
      | none ↦ (err (response_missing q.key), ks)
      | some r ↦ (ok (replay r), ks)
    ]

-- a pending row; `save` finds the row by its primary key and writes the lock alone
abbrev claim_pending : Time → ClaimRequest → IdempotencyKey → Action Keys Claim
claim_pending now q row ks =
    if not (text_eq row.fingerprint q.fingerprint)
    then (ok fingerprint_mismatch, ks)
    else if is_locked now row
    then (ok already_locked, ks)
    else elim (post_init (claim_lock now q row)) [
      | ok k ↦ (ok (acquired k), replace q.key q.user_id (claim_lock now q) ks)
      | err e ↦ (err e, replace q.key q.user_id (claim_lock now q) ks)
    ]

-- What `claim_or_replay` does with the row that it has read. The transaction that locks the row
-- ends with the read, so other requests may run between the read and this.
unfoldable pub claim_with : Time → ClaimRequest → Option IdempotencyKey → Action Keys Claim
unfolding claim_new replace post_init
claim_with now q none ks = claim_new now q ks
claim_with now q (some row) ks =
    if leb row.expires_at now
    then (ok expired, ks)
    else if not (is_pending row.status)
    then claim_final q row ks
    else claim_pending now q row ks

-- `claim_or_replay`, with nothing between the read and the rest
unfoldable pub claim_or_replay : Time → ClaimRequest → Action Keys Claim
unfolding claim_with
claim_or_replay now q ks = claim_with now q (find q.key q.user_id ks) ks
