-- ===== src/Idempotency/Tests.antt =====
-- Idempotency keys at concrete inputs.
use microservice_payment_ser.Base.{◌≡◌, refl, false, none, some, [], ◌∷◌, arith}
use microservice_payment_ser.Base.Text.{codes, is_blank}
use microservice_payment_ser.Base.Json.{end}
use microservice_payment_ser.Errors.{Time, ok}
use microservice_payment_ser.Idempotency.Key.{
  IdempotencyKey, StoredResponse, pending, completed, finalize, record_success,
}
use microservice_payment_ser.Idempotency.Key.Lifecycle.{IsValid}
use microservice_payment_ser.Idempotency.Store.{
  ClaimRequest, acquired, already_locked, claim_lock, claim_with, claim_or_replay, find,
}
use microservice_payment_ser.Idempotency.Store.Claims
use microservice_payment_ser.Idempotency.Service
use microservice_payment_ser.Idempotency.Service.{process_request}
use microservice_payment_ser.Idempotency.Service.Replay

abbrev open_key : IdempotencyKey
open_key = record {
  key = codes "k1";
  user_id = 2;
  fingerprint = codes "abc";
  expires_at = 86400000000;
  status = pending;
  response = none;
  request_id = none;
  correlation_id = none;
  locked_until = none;
  locked_by = none;
  idempotency_id = 900;
  created_at = 0;
  updated_at = 0;
}

abbrev response : StoredResponse
response = record { status_code = 200; headers = end; body = end }

abbrev other_response : StoredResponse
other_response = record { status_code = 400; headers = end; body = end }

abbrev finished_key : IdempotencyKey
finished_key = finalize 5 completed response open_key

finishes : record_success 5 response open_key ≡ ok finished_key
unfolding record_success
finishes = refl

abbrev claim : ClaimRequest
claim = record {
  key = codes "k1";
  user_id = 2;
  fingerprint = codes "abc";
  locker_id = codes "w1";
  lease = 30;
  new_id = 901;
}

abbrev other_claim : ClaimRequest
other_claim = record claim { locker_id = codes "w2"; new_id = 902 }

abbrev held_by : Time → ClaimRequest → IdempotencyKey
held_by now q = record (claim_lock now q open_key) { updated_at = 0 }

granted : (claim_or_replay 5 claim (open_key ∷ [])).0 ≡ ok (acquired (held_by 5 claim))
unfolding claim_or_replay is_blank
granted = refl

open_key-IsValid : IsValid open_key
open_key-IsValid = record { unlocked = λ e. absurd (e refl); answered = λ e. absurd (e refl) }

lease_excludes_example :
    let ks' = (claim_or_replay 5 claim (open_key ∷ [])).1 in
    claim_or_replay 6 other_claim ks' ≡ (ok already_locked, ks')
lease_excludes_example =
    Claims.lease_excludes 5 6 claim other_claim open_key (held_by 5 claim) (open_key ∷ []) refl
      granted refl refl refl (omega arith) (omega arith)

named : is_blank (codes "k1") ≡ false
unfolding is_blank
named = refl

stale_claims_both_acquire_example :
    let (first, ks1) = claim_with 5 claim (some open_key) (open_key ∷ []) in
    let (second, ks2) = claim_with 6 other_claim (some open_key) ks1 in
    (first ≡ ok (acquired (held_by 5 claim)))
    × (second ≡ ok (acquired (held_by 6 other_claim)))
    × (find (codes "k1") 2 ks2 ≡ some (claim_lock 6 other_claim open_key))
    × (claim_or_replay 6 other_claim ks1 ≡ (ok already_locked, ks1))
stale_claims_both_acquire_example =
    Claims.stale_claims_both_acquire 5 6 claim other_claim open_key (open_key ∷ []) refl refl refl
      refl named refl refl refl refl (omega arith) (omega arith) (omega arith)

recorded_then_replayed_example :
    let done = Service.record_success 5 (codes "k1") 2 response (open_key ∷ []) in
    let broken = Service.record_failure 5 (codes "k1") 2 response (open_key ∷ []) in
    (done.0 ≡ ok tt)
    × (process_request 9 other_claim done.1 ≡ (ok (some response), done.1))
    × (broken.0 ≡ ok tt)
    × (process_request 9 other_claim broken.1 ≡ (ok (some response), broken.1))
recorded_then_replayed_example =
    Replay.recorded_then_replayed 5 9 response open_key (open_key ∷ []) other_claim refl named refl
      (omega arith) refl refl (omega arith)
