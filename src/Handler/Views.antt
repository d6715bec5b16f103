-- ===== src/Handler/Views.antt =====
-- What the creation commands answer
-- (src/application/payment/handlers/payment_command_handlers.py).
use microservice_payment_ser.Base.{◌≡◌, refl, Option, none, some, [], arith}
use microservice_payment_ser.Base.Text.{Text, codes}
use microservice_payment_ser.Base.Json.{Codec, Members}
use microservice_payment_ser.Errors.{Uuid, Time, Error, Result, ok, err, dict_key_error}
use microservice_payment_ser.Action.{rethrow, rethrow-ok}
use microservice_payment_ser.Payment.Aggregate.{Env, or_text}
use microservice_payment_ser.Payment.Events.Serial.{optional_uuid}
use microservice_payment_ser.Idempotency.Service.{begin_request_processing}
use microservice_payment_ser.EventStore.{Database, Setting}
use microservice_payment_ser.Repository.{Source}
use microservice_payment_ser.Commands
use microservice_payment_ser.Commands.{CreateRequest}
use microservice_payment_ser.Executor.{PaymentView, System, CreationCall, build_view, claim_of}
use microservice_payment_ser.Executor.Once.{executed-unseen}
use microservice_payment_ser.Handler.{
  external_payload, refund_payload, create_refund, id_json, creation_error,
}

optional_uuid-id_json : (c : Codec) (o : Option Uuid) → optional_uuid c (id_json c o) ≡ ok o
optional_uuid-id_json c none = refl
optional_uuid-id_json c (some u) = ground (arith, c.uuid_of-uuid_str u, c.uuid_str_non_empty u)

-- The view of a deposit or a withdrawal can always be built, and shows what was asked for.
pub external_view :
    (c : Codec) (type : Text) (now : Time) (id : Uuid) (q : CreateRequest)
    → build_view c now id (external_payload c type q)
      ≡ ok (record {
        payment_id = id;
        wallet_id = q.wallet_id;
        user_id = q.user_id;
        amount = c.decimal_str q.amount;
        currency = q.currency;
        payment_type = type;
        payment_method = q.payment_method;
        status = codes "PENDING";
        reference_id = q.reference_id;
        description = some (or_text q.description []);
        created_at = now;
        updated_at = now;
      })
unfolding build_view
external_view c type now id q = ground (
  arith,
  c.uuid_of-uuid_str q.wallet_id,
  c.uuid_of-uuid_str q.user_id,
  optional_uuid-id_json c q.reference_id,
)

-- The view of a refund cannot be built: the payload has no method.
refund_view :
    (c : Codec) (now : Time) (id original : Uuid) (q : CreateRequest)
    → build_view c now id (refund_payload c q original) ≡ err (dict_key_error "payment_method")
unfolding build_view
refund_view c now id original q =
    ground (arith, c.uuid_of-uuid_str q.wallet_id, c.uuid_of-uuid_str q.user_id)

module _ (c : Codec) (s : Setting) (fingerprint : Members → Text) (message : Error → Text)
    (fetch_view : Uuid → Database → Result PaymentView) where
  -- A refund request that is given the work and whose refund is created and stored: the call raises
  -- `KeyError` all the same, and the refund stays in the tables.
  pub refund_request_raises :
      (call : CreationCall) (src : Source) (env : Env) (q : CreateRequest) (original : Uuid)
      (sys : System) (id : Uuid) (db' : Database)
      → let call' = record call { payload = refund_payload c q original } in
        (begin_request_processing call.began (claim_of fingerprint call') sys.keys).0 ≡ ok none
        → Commands.create_refund c s src env q original sys.db ≡ (ok id, db')
        → let (res, sys') =
            create_refund c s fingerprint message fetch_view call src env q original sys in
          (res ≡ err (dict_key_error "payment_method")) × (sys'.db ≡ db')
  unfolding create_refund
  refund_request_raises call src env q original sys id db' given runs =
      executed-unseen c fingerprint message fetch_view
        (record call { payload = refund_payload c q original })
        (rethrow creation_error (Commands.create_refund c s src env q original)) sys db' id
        (dict_key_error "payment_method") given
        (rethrow-ok creation_error (Commands.create_refund c s src env q original) sys.db db' id
          runs)
        (refund_view c call.ended id original q)
