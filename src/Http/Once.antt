-- ===== src/Http/Once.antt =====
-- A deposit that is posted twice (src/apis/payment/command_views.py over
-- src/application/payment/handlers/payment_command_handlers.py).
use microservice_payment_ser.Base.{◌<◌, ◌≡◌, refl, false, none, some, ◌∙◌, ap, sym, subst}
use microservice_payment_ser.Base.Text.{Text, codes, is_empty, strip}
use microservice_payment_ser.Base.Json.{Members, Codec, str}
use microservice_payment_ser.Base.Decimal.{Decimal}
use microservice_payment_ser.Errors.{
  Uuid, Time, Error, Result, ok, err, invalid_operation, value_error, payment_not_found,
}
use microservice_payment_ser.Projection.{find_row}
use microservice_payment_ser.Projection.Runner.{Projections}
use microservice_payment_ser.Commands.Production.{create_deposit-projections}
use microservice_payment_ser.Queries.Payments.Fetch.{fetch_payment, fetch_payment-missing}
use microservice_payment_ser.Action.{rethrow, rethrow-ok}
use microservice_payment_ser.Payment.Aggregate.{Env}
use microservice_payment_ser.Payment.Events.Serial.{option_uuid}
use microservice_payment_ser.EventStore.{Database, Setting}
use microservice_payment_ser.Idempotency.Key.{IdempotencyKey}
use microservice_payment_ser.Idempotency.Store.{find}
use microservice_payment_ser.Idempotency.Service.{begin_request_processing}
use microservice_payment_ser.Commands
use microservice_payment_ser.Commands.{CreateRequest}
use microservice_payment_ser.Executor.{PaymentView, System, CreationCall, claim_of}
use microservice_payment_ser.Executor.Once.{executed_once}
use microservice_payment_ser.Handler
use microservice_payment_ser.Handler.{external_payload, creation_error}
use microservice_payment_ser.Handler.Views.{external_view}
use microservice_payment_ser.Http.Requests.{Response, Printing, refuse}
use microservice_payment_ser.Http.Creation.{
  create_deposit, create_withdrawal, call_for, deposit_failed, respond,
}
use microservice_payment_ser.Http.Posting.{
  posted, posted_raw, read_external-posted, read_external-bad_amount, read_external-bad_payment_id,
}

module _ (c : Codec) (p : Printing) (s : Setting) (fingerprint : Members → Text)
    (message : Error → Text) (fetch_view : Uuid → Database → Result PaymentView) where
  -- The call of the executor for a posted deposit.
  abbrev pub call_of : CreationCall → Text → CreateRequest → CreationCall
  call_of call key q = record (call_for c p s fingerprint message fetch_view call key q.user_id) {
    payload = external_payload c (codes "deposit") q;
  }

  abbrev posting : CreationCall → Env → Text → CreateRequest → System → Result Response × System
  posting call env key q =
      create_deposit c p s fingerprint message fetch_view call env (posted c key q)

  abbrev handled : CreationCall → Env → Text → CreateRequest → System → Result PaymentView × System
  handled call env key q =
      Handler.create_deposit c s fingerprint message fetch_view
        (call_for c p s fingerprint message fetch_view call key q.user_id) env q

  abbrev answered_by : Result PaymentView × System → Result Response × System
  answered_by = respond c p s fingerprint message fetch_view (deposit_failed message)

  -- A well-formed deposit is handled as it was meant.
  posting-handled :
      (call : CreationCall) (env : Env) (key : Text) (q : CreateRequest) (sys : System)
      → is_empty key ≡ false
      → is_empty q.currency ≡ false
      → is_empty q.payment_method ≡ false
      → posting call env key q sys ≡ answered_by (handled call env key q sys)
  unfolding create_deposit
  posting-handled call env key q sys named priced paid =
      rw (read_external-posted c p key q named priced paid) refl

  -- A deposit that is given the work and whose command goes through is answered 201; another one of
  -- the user under its key, while the key lives, is answered as the query for the first payment
  -- goes, and changes no table.
  pub deposit_answered_twice :
      (call again : CreationCall) (env env' : Env) (key : Text) (q q' : CreateRequest)
      (sys : System) (db' : Database) (id : Uuid)
      → strip key ≡ key
      → is_empty key ≡ false
      → is_empty q.currency ≡ false
      → is_empty q.payment_method ≡ false
      → is_empty q'.currency ≡ false
      → is_empty q'.payment_method ≡ false
      → q'.user_id ≡ q.user_id
      → (begin_request_processing call.began (claim_of fingerprint (call_of call key q)) sys.keys).0
        ≡ ok none
      → Commands.create_deposit c s env q sys.db ≡ (ok id, db')
      → ((row : IdempotencyKey)
          → find key q.user_id
              (begin_request_processing call.began
                (claim_of fingerprint (call_of call key q))
                sys.keys).1
            ≡ some row
          → (call.ended < row.expires_at) × (again.began < row.expires_at))
      → let (res, sys') =
          create_deposit c p s fingerprint message fetch_view call env (posted c key q) sys in
        ((r : Response) × (res ≡ ok r) × (r.status ≡ 201))
        × (sys'.db ≡ db')
        × (create_deposit c p s fingerprint message fetch_view again env' (posted c key q') sys'
            ≡ answered_by (fetch_view id db', sys'))
  unfolding Handler.create_deposit
  deposit_answered_twice call again env env' key q q' sys db' id bare named priced paid priced'
        paid' same given runs live =
      let (first, left, second) =
        executed_once c fingerprint message fetch_view (call_of call key q) (call_of again key q')
          (rethrow creation_error (Commands.create_deposit c s env q))
          (rethrow creation_error (Commands.create_deposit c s env' q')) sys db' id _ bare given
          (rethrow-ok creation_error (Commands.create_deposit c s env q) sys.db db' id runs)
          (external_view c (codes "deposit") call.ended id q) refl same live in
      let after = (handled call env key q sys).1 in
      let one =
        posting-handled call env key q sys named priced paid
        ∙ ap (λ (r : Result PaymentView). answered_by (r, after)) first in
      let two =
        posting-handled again env' key q' after named priced' paid' ∙ ap answered_by second in
      (
        (_, ap (λ (x : Result Response × System). x.0) one, refl),
        ap (λ (x : Result Response × System). x.1.db) one ∙ left,
        subst (λ (x : System). posting again env' key q' x ≡ answered_by (fetch_view id db', x))
            (sym (ap (λ (x : Result Response × System). x.1) one)) two,
      )

  -- A deposit or a withdrawal whose other fields are well-formed, but whose amount is no decimal, or
  -- whose amount is one and whose id of the payment is no UUID, is not answered: the exception
  -- leaves the view, and no table changes.
  pub malformed_uncaught :
      (call : CreationCall) (env : Env) (key amount payment_id : Text) (q : CreateRequest)
      (sys : System)
      → is_empty key ≡ false
      → is_empty q.currency ≡ false
      → is_empty q.payment_method ≡ false
      → is_empty payment_id ≡ false
      → c.decimal_of amount ≡ none
      → c.uuid_of payment_id ≡ none
      → (create_deposit c p s fingerprint message fetch_view call env
            (posted_raw c key q (str amount) (option_uuid c.uuid_str q.payment_id))
            sys
          ≡ (err invalid_operation, sys))
        × (create_deposit c p s fingerprint message fetch_view call env
              (posted_raw c key q (str (c.decimal_str q.amount)) (str payment_id))
              sys
            ≡ (err (value_error "badly formed hexadecimal UUID string"), sys))
        × (create_withdrawal c p s fingerprint message fetch_view call env
              (posted_raw c key q (str amount) (option_uuid c.uuid_str q.payment_id))
              sys
            ≡ (err invalid_operation, sys))
        × (create_withdrawal c p s fingerprint message fetch_view call env
              (posted_raw c key q (str (c.decimal_str q.amount)) (str payment_id))
              sys
            ≡ (err (value_error "badly formed hexadecimal UUID string"), sys))
  unfolding create_deposit create_withdrawal
  malformed_uncaught call env key amount payment_id q sys named priced paid given no_decimal
        no_uuid =
      let first =
        read_external-bad_amount c p key amount q (option_uuid c.uuid_str q.payment_id) named priced
          paid no_decimal in
      let second =
        read_external-bad_payment_id c p key payment_id q named priced paid given no_uuid in
      (rw first refl, rw second refl, rw first refl, rw second refl)

-- Outside of debug mode, a well-formed deposit under a key without spaces around it that is given the
-- work and whose command makes a payment that has no row in the read model is answered 201 and
-- leaves the payment tables as the command does. Another well-formed deposit of the user under that
-- key which begins while the key lives, whatever else it asks for, makes no second payment and
-- changes no table, provided that the first ended while the key lived; but it is answered 400,
-- because the query for the first payment does not find it.
pub deposit_posted_twice :
    (c : Codec) (p : Printing) (s : Setting) (fingerprint : Members → Text) (message : Error → Text)
    (normalized : Decimal → Text) (stamps : Uuid → Time × Time) (call again : CreationCall)
    (env env' : Env) (key : Text) (q q' : CreateRequest) (sys : System) (db' : Database) (id : Uuid)
    → s.debug ≡ false
    → strip key ≡ key
    → is_empty key ≡ false
    → is_empty q.currency ≡ false
    → is_empty q.payment_method ≡ false
    → is_empty q'.currency ≡ false
    → is_empty q'.payment_method ≡ false
    → q'.user_id ≡ q.user_id
    → let fetch_view = fetch_payment normalized stamps in
      let begun =
        begin_request_processing call.began
          (claim_of fingerprint (call_of c p s fingerprint message fetch_view call key q))
          sys.keys in
      begun.0 ≡ ok none
      → Commands.create_deposit c s env q sys.db ≡ (ok id, db')
      → find_row id sys.db.projections.read_models ≡ none
      → ((row : IdempotencyKey)
          → find key q.user_id begun.1 ≡ some row
          → (call.ended < row.expires_at) × (again.began < row.expires_at))
      → let (res, sys') =
          create_deposit c p s fingerprint message fetch_view call env (posted c key q) sys in
        ((r : Response) × (res ≡ ok r) × (r.status ≡ 201))
        × (sys'.db ≡ db')
        × (create_deposit c p s fingerprint message fetch_view again env' (posted c key q') sys'
            ≡ (ok (refuse 400 (message (payment_not_found id))), sys'))
unfolding deposit_failed
deposit_posted_twice c p s fingerprint message normalized stamps call again env env' key q q' sys
      db' id production bare named priced paid priced' paid' same given runs new live =
    let fetch_view = fetch_payment normalized stamps in
    let (first, left, second) =
      deposit_answered_twice c p s fingerprint message fetch_view call again env env' key q q' sys
        db' id bare named priced paid priced' paid' same given runs live in
    let unwritten : db'.projections ≡ sys.db.projections =
      ap (λ (x : Result Uuid × Database). x.1.projections) (sym runs)
      ∙ create_deposit-projections c s production env q sys.db in
    let missing : fetch_view id db' ≡ err (payment_not_found id) =
      fetch_payment-missing normalized stamps id db'
        (ap (λ (x : Projections). find_row id x.read_models) unwritten ∙ new) in
    let after =
      (create_deposit c p s fingerprint message fetch_view call env (posted c key q) sys).1 in
    (
      first,
      left,
      second
          ∙ ap
              (λ (r : Result PaymentView).
                respond c p s fingerprint message fetch_view (deposit_failed message) (r, after))
              missing,
    )
