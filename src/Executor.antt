-- ===== src/Executor.antt =====
-- `IdempotentPaymentExecutor` of src/application/payment/handlers/payment_command_handlers.py. The
-- command and the query of the view are arguments there too; the hash `compute_fingerprint` and the
-- `str` of an exception are parameters.
use microservice_payment_ser.Base.{
  ℕ, Bool, true, false, Option, none, some, List, [], ◌∷◌, if◌then◌else◌,
}
use microservice_payment_ser.Base.Text.{Text, codes, is_empty}
use microservice_payment_ser.Base.Json.{
  Json, Members, Codec, null, num, str, object, end, member, get,
}
use microservice_payment_ser.Errors
use microservice_payment_ser.Errors.{
  Uuid, Time, Error, Result, ok, err, payment_domain_error, payment_domain_error_text,
  key_reuse_with_different_payload, key_in_progress,
}
use microservice_payment_ser.Action.{Action, pure, raise, lift, rethrow, ◌>>=◌, ◌>>◌}
use microservice_payment_ser.Payment.Events.Serial.{
  as_text, item, item_or, uuid_item, optional_uuid, optional_text, or_value_error,
}
use microservice_payment_ser.Payment.Aggregate.{or_text}
use microservice_payment_ser.EventStore.{Database}
use microservice_payment_ser.Idempotency.Key.{StoredResponse}
use microservice_payment_ser.Idempotency.Store.{Keys, ClaimRequest}
use microservice_payment_ser.Idempotency.Service.{
  begin_request_processing, record_successful_response, record_failed_response,
}
pub mod Once
pub mod Tests

-- `PaymentView`
pub record PaymentView : Type 0 where
  pub payment_id : Uuid
  pub wallet_id : Uuid
  pub user_id : Uuid
  pub amount : Text
  pub currency : Text
  pub payment_type : Text
  pub payment_method : Text
  pub status : Text
  pub reference_id : Option Uuid
  pub description : Option Text
  pub created_at : Time
  pub updated_at : Time

-- The tables that a creation command may change.
pub record System : Type 0 where
  pub keys : Keys
  pub db : Database

abbrev pub on_keys : {A : Type 0} → Action Keys A → Action System A
on_keys m sys = let (r, keys) = m sys.keys in (r, record sys { keys = keys })

abbrev pub on_db : {A : Type 0} → Action Database A → Action System A
on_db m sys = let (r, db) = m sys.db in (r, record sys { db = db })

-- A call of `execute_payment_creation`: the key, the user and the locker with the ids that are
-- drawn, the payload, and the times at which the call begins and ends.
pub record CreationCall : Type 0 where
  pub claim : ClaimRequest
  pub payload : Members
  pub began : Time
  pub ended : Time

-- `payload.get("description") or ""`
abbrev description_of : Members → Result Text
description_of m =
    Errors.◌>>=◌ (optional_text (item_or "description" null m)) λ d. ok (or_text d [])

-- The `PaymentView` that is built once the command has returned an id.
unfoldable pub build_view : Codec → Time → Uuid → Members → Result PaymentView
build_view c now id payload = Errors.◌>>=◌ (uuid_item c "wallet_id" payload) λ wallet_id.
    Errors.◌>>=◌ (uuid_item c "user_id" payload) λ user_id.
      Errors.◌>>=◌ (Errors.◌>>=◌ (item "amount" payload) as_text) λ amount.
        Errors.◌>>=◌ (Errors.◌>>=◌ (item "currency" payload) as_text) λ currency.
          Errors.◌>>=◌ (as_text (item_or "type" (str (codes "deposit")) payload)) λ payment_type.
            Errors.◌>>=◌ (Errors.◌>>=◌ (item "payment_method" payload) as_text) λ payment_method.
              Errors.◌>>=◌ (optional_uuid c (item_or "reference_id" null payload)) λ reference_id.
                Errors.◌>>=◌ (description_of payload) λ description. ok (record {
                  payment_id = id;
                  wallet_id = wallet_id;
                  user_id = user_id;
                  amount = amount;
                  currency = currency;
                  payment_type = payment_type;
                  payment_method = payment_method;
                  status = codes "PENDING";
                  reference_id = reference_id;
                  description = some description;
                  created_at = now;
                  updated_at = now;
                })

-- The response that is recorded for a view.
abbrev pub success_response : Codec → PaymentView → StoredResponse
success_response c v = record {
  status_code = 200;
  headers = end;
  body = member "payment_id" (str (c.uuid_str v.payment_id)) (
      member "status" (str v.status)
        (member "amount" (str v.amount) (member "currency" (str v.currency) end)));
}

-- The response that is recorded for an exception.
abbrev pub failure_response : Text → StoredResponse
failure_response message = record {
  status_code = 400;
  headers = end;
  body = member "error" (str message) end;
}

-- The exceptions that `begin_request_processing` may raise, as the executor raises them.
abbrev pub begin_payment_error : Error → Error
begin_payment_error (key_reuse_with_different_payload k) =
    payment_domain_error "Idempotency conflict"
begin_payment_error (key_in_progress k) =
    payment_domain_error "This request is already being processed"
begin_payment_error _ = payment_domain_error "Idempotency processing failed"

-- What a stored body is replayed as: the id of a payment, or the stored error.
unfoldable pub stored_payment : Codec → Members → Result Uuid
stored_payment c body = elim (get "error" body) [
  | some message ↦ Errors.◌>>=◌ (as_text message) λ m. err (payment_domain_error_text m)
  | none ↦ elim (get "payment_id" body) [
    | none ↦ err (payment_domain_error "Invalid cached response: missing payment_id")
    | some v ↦ Errors.◌>>=◌ (as_text v) λ t. or_value_error "badly formed UUID" (c.uuid_of t)
  ]
]

-- The arguments of `begin_request_processing`, the fingerprint being that of the payload.
abbrev pub claim_of : (Members → Text) → CreationCall → ClaimRequest
claim_of fingerprint call = record call.claim { fingerprint = fingerprint call.payload }

module _ (c : Codec) (fingerprint : Members → Text) (message : Error → Text)
    (fetch_view : Uuid → Database → Result PaymentView) where
  -- the replay case: nothing is written
  abbrev pub replay_stored : StoredResponse → Action System PaymentView
  replay_stored r sys = (Errors.◌>>=◌ (stored_payment c r.body) (λ id. fetch_view id sys.db), sys)

  -- the body of the `try` of a first execution
  abbrev pub first_try : CreationCall → Action Database Uuid → Action System PaymentView
  first_try call command = do
    id ← on_db command
    view ← lift (build_view c call.ended id call.payload)
    on_keys (
        record_successful_response call.ended call.claim.key call.claim.user_id
          (success_response c view))
    pure view

  -- and its `except`: whether recording the failure raises is not looked at
  abbrev pub first_execution : CreationCall → Action Database Uuid → Action System PaymentView
  first_execution call command sys =
      let (r, after) = first_try call command sys in
      elim r [
        | ok view ↦ (ok view, after)
        | err e ↦ (
          err e,
          (on_keys
              (record_failed_response call.ended call.claim.key call.claim.user_id
                (failure_response (message e)))
              after).1,
        )
      ]

  -- `execute_payment_creation`
  unfoldable pub execute_payment_creation :
      CreationCall → Action Database Uuid → Action System PaymentView
  unfolding build_view stored_payment
  execute_payment_creation call command = do
    stored ←
        rethrow begin_payment_error
          (on_keys (begin_request_processing call.began (claim_of fingerprint call)))
    elim stored [ some r ↦ replay_stored r | none ↦ first_execution call command ]
