-- ===== src/Http/Keys/Recorded.antt =====
-- What the test views of idempotency keys (src/apis/idempotency/command_views.py) leave for one
-- another.
use microservice_payment_ser.Base.{◌<◌, ◌≡◌, ap, true, false, some, arith}
use microservice_payment_ser.Base.Text.{Text, is_blank}
use microservice_payment_ser.Base.Json.{Members, Codec}
use microservice_payment_ser.Errors.{Uuid, Time, Error, Result, ok, err}
use microservice_payment_ser.Action.{Action}
use microservice_payment_ser.Idempotency.Key.{IdempotencyKey, StoredResponse, is_pending}
use microservice_payment_ser.Idempotency.Store.{Keys, find, ClaimRequest}
use microservice_payment_ser.Idempotency.Service.{
  process_request, record_failure, record_failed_response, begin_request_processing,
}
use microservice_payment_ser.Idempotency.Service.Replay.{recorded_then_replayed}
use microservice_payment_ser.Http.Requests.{Request, Response, value}
use microservice_payment_ser.Http.Keys.{
  KeyAsked, FailureAsked, read_begin, read_failure, record_test_failure, begin_test_processing,
  begun_response, recorded_body, claim_for, answer_with, recording_failed, begin_failed,
}

record_failed-ok :
    (now : Time) (key : Text) (user : Uuid) (r : StoredResponse) (ks : Keys)
    → (record_failure now key user r ks).0 ≡ ok tt
    → record_failed_response now key user r ks ≡ (ok tt, (record_failure now key user r ks).1)
unfolding record_failed_response
record_failed-ok now key user r ks h = ground arith

begin-ok :
    (now : Time) (q : ClaimRequest) (r : StoredResponse) (ks : Keys)
    → process_request now q ks ≡ (ok (some r), ks)
    → begin_request_processing now q ks ≡ (ok (some r), ks)
unfolding begin_request_processing
begin-ok now q r ks h = ground arith

module _ (c : Codec) (fingerprint : Members → Text) (message : Error → Text) where
  -- A call that returns is answered well.
  answer_with-ok :
      {A : Type 0} (good : A → Response) (bad : Error → Response) (call : Action Keys A) (a : A)
      (ks ks' : Keys)
      → call ks ≡ (ok a, ks')
      → answer_with c fingerprint message good bad call ks ≡ (ok (good a), ks')
  answer_with-ok {A = A} good bad call a ks ks' h =
      let answered_by : Result A × Keys → Result Response × Keys =
        λ x. elim x.0 [ ok b ↦ (ok (good b), x.1) | err e ↦ (ok (bad e), x.1) ] in
      ap answered_by h

  record_view :
      (now : Time) (q : Request) (a : FailureAsked) (ks ks' : Keys)
      → read_failure c q ≡ value a
      → record_failed_response now a.key a.user_id a.response ks ≡ (ok tt, ks')
      → record_test_failure c fingerprint message now q ks
        ≡ (ok (recorded_body c fingerprint message), ks')
  unfolding record_test_failure
  record_view now q a ks ks' read h = rw read (
      answer_with-ok (λ (u : Unit {0}). recorded_body c fingerprint message)
        (recording_failed c fingerprint message)
        (record_failed_response now a.key a.user_id a.response) tt ks ks' h)

  begin_view :
      (now : Time) (new_id fresh : Uuid) (q : Request) (a : KeyAsked) (r : StoredResponse)
      (ks : Keys)
      → read_begin c fresh q ≡ value a
      → begin_request_processing now (claim_for c fingerprint message new_id a) ks
        ≡ (ok (some r), ks)
      → begin_test_processing c fingerprint message now new_id fresh q ks
        ≡ (ok (begun_response c fingerprint message (fingerprint a.payload) (some r)), ks)
  unfolding begin_test_processing
  begin_view now new_id fresh q a r ks read h = rw read (
      answer_with-ok (begun_response c fingerprint message (fingerprint a.payload))
        (begin_failed c fingerprint message)
        (begin_request_processing now (claim_for c fingerprint message new_id a)) (some r) ks ks h)

  -- A failure recorded over HTTP for a live pending key of the user is answered 200; until the key
  -- expires, whoever begins again under the key, as the same user and with whatever payload, is
  -- answered 200 with the recorded response as the cached one, and the table stays as it is.
  pub recorded_then_begun :
      (now later : Time) (new_id fresh : Uuid) (failure again : Request) (f : FailureAsked)
      (b : KeyAsked) (row : IdempotencyKey) (ks : Keys)
      → read_failure c failure ≡ value f
      → read_begin c fresh again ≡ value b
      → find row.key row.user_id ks ≡ some row
      → is_blank row.key ≡ false
      → is_pending row.status ≡ true
      → now < row.expires_at
      → later < row.expires_at
      → f.key ≡ row.key
      → f.user_id ≡ row.user_id
      → b.key ≡ row.key
      → b.user_id ≡ row.user_id
      → (ks' : Keys) × (record_test_failure c fingerprint message now failure ks
          ≡ (ok (recorded_body c fingerprint message), ks'))
        × (begin_test_processing c fingerprint message later new_id fresh again ks' ≡ (
          ok (begun_response c fingerprint message (fingerprint b.payload) (some f.response)),
          ks',
        ))
  recorded_then_begun now later new_id fresh failure again f b row ks read_f read_b found named
        open_row timely alive f_key f_user b_key b_user =
      let claim = claim_for c fingerprint message new_id b in
      let facts =
        recorded_then_replayed now later f.response row ks claim found named open_row timely b_key
          b_user alive in
      let ks' = (record_failure now row.key row.user_id f.response ks).1 in
      (
        ks',
        record_view now failure f ks ks' read_f
            (rw (f_key, f_user) (record_failed-ok now row.key row.user_id f.response ks facts.2)),
        begin_view later new_id fresh again b f.response ks' read_b
            (begin-ok later claim f.response ks' facts.3),
      )
