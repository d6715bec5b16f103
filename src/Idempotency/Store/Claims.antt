-- ===== src/Idempotency/Store/Claims.antt =====
-- Who may work on a key, and what a finished key answers
-- (src/infrastructure/repos/idempontency/idempotence_command_repo.py).
use microservice_payment_ser.Base.{
  ◌+◌, ◌<◌, ◌≡◌, refl, sym, subst, ap, ap₂, ◌∙◌, ◌≢◌, true, false, Option, some, [], ◌∷◌, leb,
  if◌then◌else◌, arith,
}
use microservice_payment_ser.Base.Text.{Text, text_eq, is_blank}
use microservice_payment_ser.Errors.{Uuid, Time, Result, ok}
use microservice_payment_ser.Idempotency.Key.{
  IdempotencyKey, StoredResponse, pending, seconds, is_pending,
}
use microservice_payment_ser.Idempotency.Store.{
  Keys, matches, find, replace, Claim, replay, acquired, fingerprint_mismatch, already_locked,
  ClaimRequest, claim_lock, claim_with, claim_or_replay, is_locked,
}

pub find-replace :
    (key : Text) (user : Uuid) (change : IdempotencyKey → IdempotencyKey)
    (keeps : (k : IdempotencyKey) → matches key user (change k) ≡ matches key user k) (ks : Keys)
    (k : IdempotencyKey)
    → find key user ks ≡ some k
    → find key user (replace key user change ks) ≡ some (change k)
unfolding replace
find-replace key user change keeps [] k h = cc
find-replace key user change keeps (x ∷ ks) k h =
    ground (arith, keeps x, find-replace key user change keeps ks k)

abbrev Outcome : Type 0
Outcome = Result Claim × Keys

-- What a granted claim of a stored key has read and written.
pub claim_with-granted :
    (now : Time) (q : ClaimRequest) (row k : IdempotencyKey) (ks : Keys)
    → (claim_with now q (some row) ks).0 ≡ ok (acquired k)
    → (is_pending row.status ≡ true)
      × (text_eq row.fingerprint q.fingerprint ≡ true)
      × (leb row.expires_at now ≡ false)
      × (is_locked now row ≡ false)
      × ((claim_with now q (some row) ks).1 ≡ replace q.key q.user_id (claim_lock now q) ks)
      × (is_blank row.key ≡ false)
unfolding claim_with
claim_with-granted now q row k ks h = ground arith

-- A claim reads a leased row.
claim_with-leased :
    (later : Time) (q : ClaimRequest) (row : IdempotencyKey) (ks : Keys)
    → is_pending row.status ≡ true
    → text_eq row.fingerprint q.fingerprint ≡ true
    → later < row.expires_at
    → is_locked later row ≡ true
    → claim_with later q (some row) ks ≡ (ok already_locked, ks)
unfolding claim_with
claim_with-leased later q row ks is_open print alive held = ground arith

-- A key is leased to one worker at a time: when a claim of a stored key has been granted, a claim
-- of that key by anybody with the same request is told, as long as the lease runs, that the key is
-- in progress, and changes nothing. The second claim reads after the first has written.
pub lease_excludes :
    (now later : Time) (q q' : ClaimRequest) (row k : IdempotencyKey) (ks : Keys)
    → find q.key q.user_id ks ≡ some row
    → (claim_or_replay now q ks).0 ≡ ok (acquired k)
    → q'.key ≡ q.key
    → q'.user_id ≡ q.user_id
    → q'.fingerprint ≡ q.fingerprint
    → later < now + seconds q.lease
    → later < row.expires_at
    → let ks' = (claim_or_replay now q ks).1 in
      claim_or_replay later q' ks' ≡ (ok already_locked, ks')
unfolding claim_or_replay
lease_excludes now later q q' row k ks found granted same_key same_user same_print in_lease alive =
    let step = ap (λ (o : Option IdempotencyKey). claim_with now q o ks) found in
    let facts =
      claim_with-granted now q row k ks (ap (λ (p : Outcome). p.0) (sym step) ∙ granted) in
    let wrote = ap (λ (p : Outcome). p.1) step ∙ facts.4 in
    let ks' = (claim_or_replay now q ks).1 in
    let leased =
      ap₂ (λ (key : Text) (user : Uuid). find key user ks') same_key same_user
      ∙ ap (λ (x : Keys). find q.key q.user_id x) wrote
      ∙ find-replace q.key q.user_id (claim_lock now q) (λ k. refl) ks row found in
    ap (λ (o : Option IdempotencyKey). claim_with later q' o ks') leased
    ∙ claim_with-leased later q' (claim_lock now q row) ks' facts.0
        (ap (λ (f : Text). text_eq row.fingerprint f) same_print ∙ facts.1) alive (ground arith)

-- A claim reads a pending row whose lease, if it has one, has run out.
claim_with-free :
    (now : Time) (q : ClaimRequest) (row : IdempotencyKey) (ks : Keys)
    → is_pending row.status ≡ true
    → is_blank row.key ≡ false
    → text_eq row.fingerprint q.fingerprint ≡ true
    → now < row.expires_at
    → is_locked now row ≡ false
    → claim_with now q (some row) ks ≡ (
      ok (acquired (record (claim_lock now q row) { updated_at = row.created_at })),
      replace q.key q.user_id (claim_lock now q) ks,
    )
unfolding claim_with
claim_with-free now q row ks is_open named print alive free = ground arith

-- Two requests under one key, with the same fingerprint, read its row, which is pending, alive, not
-- leased and has a key that is not blank, before either has written: both are granted the work, and
-- in the end the row has the lease of the second alone. Had the second read after the first had written, then, within the
-- lease of the first, it would have been told that the key is in progress.
pub stale_claims_both_acquire :
    (now later : Time) (q q' : ClaimRequest) (row : IdempotencyKey) (ks : Keys)
    → find q.key q.user_id ks ≡ some row
    → q'.key ≡ q.key
    → q'.user_id ≡ q.user_id
    → is_pending row.status ≡ true
    → is_blank row.key ≡ false
    → text_eq row.fingerprint q.fingerprint ≡ true
    → q'.fingerprint ≡ q.fingerprint
    → is_locked now row ≡ false
    → is_locked later row ≡ false
    → now < row.expires_at
    → later < row.expires_at
    → later < now + seconds q.lease
    → let (first, ks1) = claim_with now q (some row) ks in
      let (second, ks2) = claim_with later q' (some row) ks1 in
      (first ≡ ok (acquired (record (claim_lock now q row) { updated_at = row.created_at })))
      × (second ≡ ok (acquired (record (claim_lock later q' row) { updated_at = row.created_at })))
      × (find q.key q.user_id ks2 ≡ some (claim_lock later q' row))
      × (claim_or_replay later q' ks1 ≡ (ok already_locked, ks1))
unfolding claim_or_replay
stale_claims_both_acquire now later q q' row ks found same_key same_user is_open named print
      same_print free free' alive alive' in_lease =
    let print' = ap (λ (f : Text). text_eq row.fingerprint f) same_print ∙ print in
    let one = claim_with-free now q row ks is_open named print alive free in
    let wrote : Keys = replace q.key q.user_id (claim_lock now q) ks in
    let two = claim_with-free later q' row wrote is_open named print' alive' free' in
    let once : find q.key q.user_id wrote ≡ some (claim_lock now q row) =
      find-replace q.key q.user_id (claim_lock now q) (λ k. refl) ks row found in
    let twice =
      find-replace q.key q.user_id (claim_lock later q') (λ k. refl) wrote (claim_lock now q row)
        once in
    let granted : (claim_or_replay now q ks).0
        ≡ ok (acquired (record (claim_lock now q row) { updated_at = row.created_at })) =
      ap (λ (o : Option IdempotencyKey). (claim_with now q o ks).0) found
      ∙ ap (λ (p : Outcome). p.0) one in
    let step : (claim_or_replay now q ks).1 ≡ (claim_with now q (some row) ks).1 =
      ap (λ (o : Option IdempotencyKey). (claim_with now q o ks).1) found in
    let refused =
      lease_excludes now later q q' row
        (record (claim_lock now q row) { updated_at = row.created_at }) ks found granted same_key
        same_user same_print in_lease alive' in
    let first_keys : (claim_with now q (some row) ks).1 ≡ wrote = ap (λ (p : Outcome). p.1) one in
    let second_on : claim_with later q' (some row) (claim_with now q (some row) ks).1
        ≡ claim_with later q' (some row) wrote =
      ap (λ (x : Keys). claim_with later q' (some row) x) first_keys in
    let replaced =
      ap₂ (λ (key : Text) (user : Uuid). replace key user (claim_lock later q') wrote) same_key
        same_user in
    (
      ap (λ (p : Outcome). p.0) one,
      ap (λ (p : Outcome). p.0) (second_on ∙ two),
      ap (λ (x : Keys). find q.key q.user_id x)
            (ap (λ (p : Outcome). p.1) (second_on ∙ two) ∙ replaced)
          ∙ twice,
      subst (λ (x : Keys). claim_or_replay later q' x ≡ (ok already_locked, x)) step refused,
    )

-- A finished key answers every claim of it until it expires, and no claim changes the table: the
-- stored response when the fingerprints agree, a mismatch when they do not.
pub finished_key_replays :
    (now : Time) (q : ClaimRequest) (row : IdempotencyKey) (r : StoredResponse) (ks : Keys)
    → find q.key q.user_id ks ≡ some row
    → row.status ≢ pending
    → row.response ≡ some r
    → now < row.expires_at
    → claim_or_replay now q ks
      ≡ (ok (if text_eq row.fingerprint q.fingerprint then replay r else fingerprint_mismatch), ks)
unfolding claim_or_replay claim_with
finished_key_replays now q row r ks found done answered alive =
    ap (λ (o : Option IdempotencyKey). claim_with now q o ks) found ∙ ground arith
