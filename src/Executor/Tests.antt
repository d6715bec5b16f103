-- ===== src/Executor/Tests.antt =====
-- The executor at concrete inputs.
use microservice_payment_ser.Base.{◌<◌, ◌≡◌, refl, none, some, [], ◌∷◌, arith}
use microservice_payment_ser.Base.Text.{Text, codes, strip, is_blank}
use microservice_payment_ser.Base.Json.{Members, str, end, member}
use microservice_payment_ser.Errors.{Uuid, Error, Result, ok}
use microservice_payment_ser.Action.{Action}
use microservice_payment_ser.EventStore.{Database}
use microservice_payment_ser.Idempotency.Key.{IdempotencyKey}
use microservice_payment_ser.Idempotency.Store.{ClaimRequest, find, claim_or_replay}
use microservice_payment_ser.Idempotency.Service.{begin_request_processing}
use microservice_payment_ser.Executor.{
  PaymentView, System, CreationCall, claim_of, build_view, execute_payment_creation,
}
use microservice_payment_ser.Executor.Once
use microservice_payment_ser.Repository.Tests.{stored}
use microservice_payment_ser.Samples.{plain, empty_database}

-- Fingerprints that tell nothing apart, and exceptions without a text.
abbrev pub constant : Members → Text
constant m = codes "f"

abbrev pub silent : Error → Text
silent e = []

abbrev pub view_of : Uuid → PaymentView
view_of id = record {
  payment_id = id;
  wallet_id = 1;
  user_id = 2;
  amount = codes "10.00";
  currency = codes "eur";
  payment_type = codes "deposit";
  payment_method = codes "paypal";
  status = codes "PENDING";
  reference_id = none;
  description = some [];
  created_at = 6;
  updated_at = 6;
}

-- A query that knows every payment.
abbrev pub query : Uuid → Database → Result PaymentView
query id db = ok (view_of id)

abbrev pub claim : ClaimRequest
claim = record {
  key = codes "k1";
  user_id = 2;
  fingerprint = [];
  locker_id = codes "w1";
  lease = 30;
  new_id = 901;
}

abbrev pub deposit_call : CreationCall
deposit_call = record {
  claim = claim;
  payload = member "wallet_id" (str (1 ∷ [])) (
      member "user_id" (str (2 ∷ [])) (
        member "amount" (str (codes "10.00")) (
          member "currency" (str (codes "eur"))
            (member "payment_method" (str (codes "paypal")) end))));
  began = 5;
  ended = 6;
}

abbrev again : CreationCall
again = record deposit_call { payload = end; began = 9; ended = 10 }

abbrev before : System
before = record { keys = []; db = empty_database }

abbrev pub paying : Action Database Uuid
paying db = (ok 70, stored)

abbrev executing : CreationCall → System → Result PaymentView × System
executing call = execute_payment_creation plain constant silent query call paying

pub bare : strip (codes "k1") ≡ codes "k1"
unfolding strip
bare = refl

pub given_work :
    (begin_request_processing 5 (record claim { fingerprint = codes "f" }) []).0 ≡ ok none
unfolding begin_request_processing claim_or_replay is_blank strip
given_work = refl

lives :
    (row : IdempotencyKey)
    → find (codes "k1") 2 (begin_request_processing 5 (claim_of constant deposit_call) []).1
      ≡ some row
    → (6 < row.expires_at) × (9 < row.expires_at)
unfolding begin_request_processing claim_or_replay is_blank strip
lives row found = ground arith

viewed : build_view plain 6 70 deposit_call.payload ≡ ok (view_of 70)
unfolding build_view
viewed = refl

executed_once_example :
    let after = (executing deposit_call before).1 in
    ((executing deposit_call before).0 ≡ ok (view_of 70))
    × (after.db ≡ stored)
    × (executing again after ≡ (query 70 stored, after))
executed_once_example =
    Once.executed_once plain constant silent query deposit_call again paying paying before stored 70
      (view_of 70) bare given_work refl viewed refl refl lives

-- While one worker holds the key, another is not given the work.
abbrev held : System
held = record {
  keys = (begin_request_processing 5 (claim_of constant deposit_call) []).1;
  db = empty_database;
}

not_given : ¬ ((begin_request_processing 9 (claim_of constant again) held.keys).0 ≡ ok none)
unfolding begin_request_processing claim_or_replay is_blank strip
not_given h = ground arith
