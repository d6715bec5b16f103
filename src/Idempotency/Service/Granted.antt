-- ===== src/Idempotency/Service/Granted.antt =====
-- What a request that has been given the work finds in the table
-- (src/application/idempotency/services/idempotency_command_service.py).
use microservice_payment_ser.Base.{
  ◌+◌, ◌-◌, ◌%◌, ◌<◌, ◌≡◌, refl, sym, ap, subst, ◌∙◌, true, false, Option, none, some, [], ◌∷◌,
  ◌++◌, arith, ==_refl,
}
use microservice_payment_ser.Base.Text.{Text, strip, text_eq_refl, text_eq_iff, is_blank}
use microservice_payment_ser.Errors.{Uuid, Time, Result, ok, err}
use microservice_payment_ser.Idempotency.Key.{IdempotencyKey, pending, is_pending, seconds, hours}
use microservice_payment_ser.Idempotency.Store.{
  Keys, matches, find, Claim, acquired, replay, fingerprint_mismatch, already_locked, expired,
  ClaimRequest, claim_lock, claim_with, claim_new, claim_or_replay,
}
use microservice_payment_ser.Idempotency.Store.Claims.{find-replace, claim_with-granted}
use microservice_payment_ser.Idempotency.Service.{
  process_request, begin_request_processing, with_lease,
}

-- The row that the first claim of a key inserts.
abbrev row_of : Time → ClaimRequest → IdempotencyKey
row_of now q = record {
  key = strip q.key;
  user_id = q.user_id;
  fingerprint = q.fingerprint;
  expires_at = now + hours 24;
  status = pending;
  response = none;
  request_id = none;
  correlation_id = none;
  locked_until = some (now - now % 1000000 + seconds q.lease);
  locked_by = some q.locker_id;
  idempotency_id = q.new_id;
  created_at = now;
  updated_at = now;
}

claim_new-granted :
    (now : Time) (q : ClaimRequest) (k : IdempotencyKey) (ks : Keys)
    → (claim_new now q ks).0 ≡ ok (acquired k)
    → (is_blank (strip q.key) ≡ false) × ((claim_new now q ks).1 ≡ ks ++ row_of now q ∷ [])
unfolding claim_new
claim_new-granted now q k ks h = ground arith

find-snoc :
    (key : Text) (user : Uuid) (ks : Keys) (row : IdempotencyKey)
    → find key user ks ≡ none
    → matches key user row ≡ true
    → find key user (ks ++ row ∷ []) ≡ some row
find-snoc key user [] row missing mine = ground arith
find-snoc key user (x ∷ ks) row missing mine = ground (arith, find-snoc key user ks row)

find-matches :
    (key : Text) (user : Uuid) (ks : Keys) (row : IdempotencyKey)
    → find key user ks ≡ some row
    → matches key user row ≡ true
find-matches key user [] row h = cc
find-matches key user (x ∷ ks) row h = ground (arith, find-matches key user ks row)

-- The row that a request works on: live, pending and its own.
pub record Granted (now : Time) (q : ClaimRequest) (ks : Keys) : Type 0 where
  pub row : IdempotencyKey
  pub found : find q.key q.user_id ks ≡ some row
  pub same_key : row.key ≡ q.key
  pub same_user : row.user_id ≡ q.user_id
  pub named : is_blank row.key ≡ false
  pub is_open : is_pending row.status ≡ true
  pub alive : now < row.expires_at

abbrev Outcome : Type 0
Outcome = Result Claim × Keys

claim_with-none :
    (now : Time) (q : ClaimRequest) (ks : Keys) → claim_with now q none ks ≡ claim_new now q ks
unfolding claim_with
claim_with-none now q ks = refl

Granted-new :
    (now : Time) (q : ClaimRequest) (k : IdempotencyKey) (ks : Keys)
    → strip q.key ≡ q.key
    → find q.key q.user_id ks ≡ none
    → (claim_new now q ks).0 ≡ ok (acquired k)
    → Granted now q (claim_new now q ks).1
Granted-new now q k ks bare missing h =
    let (named, wrote) = claim_new-granted now q k ks h in
    let mine : matches q.key q.user_id (row_of now q) ≡ true =
      rw bare (ground (arith, text_eq_refl q.key, ==_refl q.user_id)) in
    subst (λ (x : Keys). Granted now q x) (sym wrote)
      (record {
        row = row_of now q;
        found = find-snoc q.key q.user_id ks (row_of now q) missing mine;
        same_key = bare;
        same_user = refl;
        named = named;
        is_open = refl;
        alive = omega arith;
      })

Granted-stored :
    (now : Time) (q : ClaimRequest) (row k : IdempotencyKey) (ks : Keys)
    → find q.key q.user_id ks ≡ some row
    → (claim_with now q (some row) ks).0 ≡ ok (acquired k)
    → Granted now q (claim_with now q (some row) ks).1
Granted-stored now q row k ks found h =
    let facts = claim_with-granted now q row k ks h in
    let mine = find-matches q.key q.user_id ks row found in
    subst (λ (x : Keys). Granted now q x) (sym facts.4)
      (record {
        row = claim_lock now q row;
        found = find-replace q.key q.user_id (claim_lock now q) (λ j. refl) ks row found;
        same_key = (text_eq_iff row.key q.key).0 (ground arith);
        same_user = ground arith;
        named = facts.5;
        is_open = facts.0;
        alive = ground arith;
      })

Granted-claim_with :
    (now : Time) (q : ClaimRequest) (k : IdempotencyKey) (ks : Keys) (o : Option IdempotencyKey)
    → strip q.key ≡ q.key
    → find q.key q.user_id ks ≡ o
    → (claim_with now q o ks).0 ≡ ok (acquired k)
    → Granted now q (claim_with now q o ks).1
Granted-claim_with now q k ks none bare missing h =
    let same = claim_with-none now q ks in
    subst (λ (x : Outcome). Granted now q x.1) (sym same)
      (Granted-new now q k ks bare missing (sym (ap (λ (x : Outcome). x.0) same) ∙ h))
Granted-claim_with now q k ks (some row) bare found h = Granted-stored now q row k ks found h

-- A granted claim leaves such a row, when the key has no spaces around it.
claim_or_replay-Granted :
    (now : Time) (q : ClaimRequest) (k : IdempotencyKey) (ks : Keys)
    → strip q.key ≡ q.key
    → (claim_or_replay now q ks).0 ≡ ok (acquired k)
    → Granted now q (claim_or_replay now q ks).1
unfolding claim_or_replay
claim_or_replay-Granted now q k ks bare h =
    Granted-claim_with now q k ks (find q.key q.user_id ks) bare refl h

begin-process_request :
    (now : Time) (q : ClaimRequest) (ks : Keys)
    → (begin_request_processing now q ks).0 ≡ ok none
    → ((process_request now q ks).0 ≡ ok none)
      × ((begin_request_processing now q ks).1 ≡ (process_request now q ks).1)
unfolding begin_request_processing
begin-process_request now q ks h = ground arith

process_request-claimed :
    (now : Time) (q : ClaimRequest) (ks : Keys) (r : Result Claim)
    → (claim_or_replay now (with_lease q) ks).0 ≡ r
    → (process_request now q ks).0 ≡ ok none
    → (k : IdempotencyKey) × ((claim_or_replay now (with_lease q) ks).0 ≡ ok (acquired k))
      × ((process_request now q ks).1 ≡ (claim_or_replay now (with_lease q) ks).1)
unfolding process_request
process_request-claimed now q ks (err e) claim h = ground arith
process_request-claimed now q ks (ok (acquired k)) claim h = (k, claim, ground arith)
process_request-claimed now q ks (ok (replay r)) claim h = ground arith
process_request-claimed now q ks (ok fingerprint_mismatch) claim h = ground arith
process_request-claimed now q ks (ok already_locked) claim h = ground arith
process_request-claimed now q ks (ok expired) claim h = ground arith

-- A request that is given the work, with a key that has no spaces around it, finds the key in the
-- table: pending, alive and its own, whether it has just been made or was there before.
pub begin-Granted :
    (now : Time) (q : ClaimRequest) (ks : Keys)
    → strip q.key ≡ q.key
    → (begin_request_processing now q ks).0 ≡ ok none
    → Granted now q (begin_request_processing now q ks).1
begin-Granted now q ks bare h =
    let (given, wrote) = begin-process_request now q ks h in
    let (k, claim, wrote') =
      process_request-claimed now q ks (claim_or_replay now (with_lease q) ks).0 refl given in
    let g = claim_or_replay-Granted now (with_lease q) k ks bare claim in
    subst (λ (x : Keys). Granted now q x) (sym (wrote ∙ wrote'))
      (record {
        row = g.row;
        found = g.found;
        same_key = g.same_key;
        same_user = g.same_user;
        named = g.named;
        is_open = g.is_open;
        alive = g.alive;
      })
