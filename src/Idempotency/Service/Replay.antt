-- ===== src/Idempotency/Service/Replay.antt =====
-- What a recorded response answers
-- (src/application/idempotency/services/idempotency_command_service.py).
use microservice_payment_ser.Base.{
  ◌<◌, ◌≡◌, refl, sym, ap, ap₂, subst, ◌∙◌, true, false, some, arith,
}
use microservice_payment_ser.Base.Text.{Text, is_blank}
use microservice_payment_ser.Errors.{Uuid, Time, Result, ok}
use microservice_payment_ser.Idempotency.Key.{
  IdempotencyKey, IdempotencyStatus, StoredResponse, completed, failed, is_pending, finalize,
}
use microservice_payment_ser.Idempotency.Store.{Keys, find, replace, copy_into, ClaimRequest}
use microservice_payment_ser.Idempotency.Store.Claims.{find-replace}
use microservice_payment_ser.Idempotency.Service.{process_request, record_success, record_failure}

-- What recording an outcome does to the row.
abbrev change_of :
    Time → IdempotencyStatus → StoredResponse → IdempotencyKey → IdempotencyKey → IdempotencyKey
change_of now status r row =
    copy_into now (finalize now status r (record row { updated_at = row.created_at }))

-- Recording an outcome on a live pending row writes the outcome into the row.
record_success-writes :
    (now : Time) (r : StoredResponse) (row : IdempotencyKey) (ks : Keys)
    → find row.key row.user_id ks ≡ some row
    → is_blank row.key ≡ false
    → is_pending row.status ≡ true
    → now < row.expires_at
    → record_success now row.key row.user_id r ks
      ≡ (ok tt, replace row.key row.user_id (change_of now completed r row) ks)
unfolding record_success
record_success-writes now r row ks found named open_row alive = ground arith

record_failure-writes :
    (now : Time) (r : StoredResponse) (row : IdempotencyKey) (ks : Keys)
    → find row.key row.user_id ks ≡ some row
    → is_blank row.key ≡ false
    → is_pending row.status ≡ true
    → now < row.expires_at
    → record_failure now row.key row.user_id r ks
      ≡ (ok tt, replace row.key row.user_id (change_of now failed r row) ks)
unfolding record_failure
record_failure-writes now r row ks found named open_row alive = ground arith

-- A stored row with an outcome is replayed at once.
process_request-final :
    (later : Time) (q : ClaimRequest) (row : IdempotencyKey) (r : StoredResponse) (ks : Keys)
    → find q.key q.user_id ks ≡ some row
    → is_blank row.key ≡ false
    → is_pending row.status ≡ false
    → row.response ≡ some r
    → later < row.expires_at
    → process_request later q ks ≡ (ok (some r), ks)
unfolding process_request
process_request-final later q row r ks found named done answered alive = ground arith

abbrev Recorded : Type 0
Recorded = Result (Unit {0}) × Keys

-- The table after an outcome has been recorded replays it.
replace-replays :
    (now later : Time) (status : IdempotencyStatus) (r : StoredResponse) (row : IdempotencyKey)
    (ks : Keys) (q : ClaimRequest)
    → find row.key row.user_id ks ≡ some row
    → is_blank row.key ≡ false
    → is_pending status ≡ false
    → q.key ≡ row.key
    → q.user_id ≡ row.user_id
    → later < row.expires_at
    → let ks' = replace row.key row.user_id (change_of now status r row) ks in
      process_request later q ks' ≡ (ok (some r), ks')
replace-replays now later status r row ks q found named done same_key same_user alive =
    let ks' = replace row.key row.user_id (change_of now status r row) ks in
    process_request-final later q (change_of now status r row row) r ks'
      (ap₂ (λ (key : Text) (user : Uuid). find key user ks') same_key same_user
        ∙ find-replace row.key row.user_id (change_of now status r row) (λ k. refl) ks row found)
      named done refl alive

-- An outcome is recorded once and answers from then on. On a live pending key, `record_success`
-- returns normally; until the key expires every later request with the key and the user, by
-- whatever worker and with whatever fingerprint, is answered with the recorded response, without
-- being given the work, and the table stays as it is. The same holds of `record_failure`.
pub recorded_then_replayed :
    (now later : Time) (r : StoredResponse) (row : IdempotencyKey) (ks : Keys) (q : ClaimRequest)
    → find row.key row.user_id ks ≡ some row
    → is_blank row.key ≡ false
    → is_pending row.status ≡ true
    → now < row.expires_at
    → q.key ≡ row.key
    → q.user_id ≡ row.user_id
    → later < row.expires_at
    → let done = record_success now row.key row.user_id r ks in
      let broken = record_failure now row.key row.user_id r ks in
      (done.0 ≡ ok tt)
      × (process_request later q done.1 ≡ (ok (some r), done.1))
      × (broken.0 ≡ ok tt)
      × (process_request later q broken.1 ≡ (ok (some r), broken.1))
recorded_then_replayed now later r row ks q found named open_row timely same_key same_user alive =
    let good = record_success-writes now r row ks found named open_row timely in
    let bad = record_failure-writes now r row ks found named open_row timely in
    let replays = λ (status : IdempotencyStatus) (final : is_pending status ≡ false).
      replace-replays now later status r row ks q found named final same_key same_user alive in
    let at = λ (x : Keys). process_request later q x ≡ (ok (some r), x) in
    (
      ap (λ (x : Recorded). x.0) good,
      subst at (sym (ap (λ (x : Recorded). x.1) good)) (replays completed refl),
      ap (λ (x : Recorded). x.0) bad,
      subst at (sym (ap (λ (x : Recorded). x.1) bad)) (replays failed refl),
    )
