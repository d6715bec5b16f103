-- ===== src/Queries/Tests.antt =====
-- The queries at concrete inputs: three payments, two of them of one wallet.
use microservice_payment_ser.Base.{
  ℕ, ◌≤◌, ◌≡◌, inl, refl, Bool, ◌&&◌, none, some, List, [], ◌∷◌, length, count_by, arith, Option,
}
use microservice_payment_ser.Base.Text.{Text, codes, is_blank}
use microservice_payment_ser.Base.Decimal.{ℤ, Decimal, pos}
use microservice_payment_ser.Base.Json.{Json, num, str, object, end, member}
use microservice_payment_ser.Errors.{Uuid, Time, Result, ok, err, type_error}
use microservice_payment_ser.Payment.Types.{pending}
use microservice_payment_ser.Idempotency.Key.{IdempotencyKey}
use microservice_payment_ser.Idempotency.Key
use microservice_payment_ser.Idempotency.Store.{Keys}
use microservice_payment_ser.Queries.Keys.{has_owner, get_keys_by_user, count_by_user}
use microservice_payment_ser.Queries.Keys.ByUser
use microservice_payment_ser.Queries.Keys.ByUser.{made}
use microservice_payment_ser.Payment.Tests.{ten_euros}
use microservice_payment_ser.Projection.{ReadModel}
use microservice_payment_ser.Executor.{PaymentView}
use microservice_payment_ser.Http.Requests.{Request}
use microservice_payment_ser.Samples.{plain}
use microservice_payment_ser.Queries.Payments.{
  TimedRow, ReadTable, by_wallet_id, wallet_matches, to_view, django_repository,
}
use microservice_payment_ser.Queries.Payments.Listing.{IsNewestFirst}
use microservice_payment_ser.Queries.Payments.Paging
use microservice_payment_ser.Queries.Payments.Paging.{wallet_pages}
use microservice_payment_ser.Queries.Payments.Limits
use microservice_payment_ser.Queries.Payments.Views.{shown, list_payments_by_wallet}

abbrev read_model : Uuid → Uuid → ReadModel
read_model id wallet = record {
  id = id;
  wallet_id = wallet;
  user_id = 2;
  amount = ten_euros;
  currency = codes "EUR";
  payment_type = codes "deposit";
  payment_method = codes "paypal";
  status = pending;
  reference_id = none;
  description = none;
}

abbrev timed : Uuid → Uuid → Time → TimedRow
timed id wallet at = record { row = read_model id wallet; created_at = at; updated_at = at }

abbrev payments : ReadTable
payments = timed 70 1 5 ∷ timed 71 9 6 ∷ timed 72 1 7 ∷ []

abbrev printed : Decimal → Text
printed d = plain.decimal_str d

wallet_pages_all_example :
    (views : List PaymentView) × (wallet_pages (django_repository printed payments) 1 2 1 0
      ≡ ok views)
    × IsNewestFirst views
    × ((test : PaymentView → Bool)
        → count_by test views
          ≡ count_by (λ r. wallet_matches printed 1 r && test (to_view printed r)) payments)
wallet_pages_all_example =
    Paging.wallet_pages_all printed payments 1 2 1 (omega arith) (omega arith) (λ at. ground arith)

abbrev whole : Json → Result ℤ
whole (num n) = ok (pos n)
whole _ = err (type_error "int")

abbrev no_user : Uuid → Result ℕ
no_user u = err (type_error "no connection")

abbrev asked : Request
asked = record {
  http_method = codes "POST";
  user_id = some (str (2 ∷ []));
  body = some (object (member "wallet_id" (str (1 ∷ [])) (member "limit" (num 900) end)));
  parse_error = [];
  idempotency_key = none;
}

abbrev two_shown : List (PaymentView × Option ℕ)
two_shown = (to_view printed (timed 72 1 7), none) ∷ (to_view printed (timed 70 1 5), none) ∷ []

-- The limit of 900 is cut down, and both payments of the wallet are shown.
two_are_shown :
    list_payments_by_wallet plain whole (django_repository printed payments) no_user asked
    ≡ ok (shown two_shown)
unfolding list_payments_by_wallet by_wallet_id
two_are_shown = refl

listings_bounded_example : length two_shown ≤ 500
listings_bounded_example =
    Limits.listings_bounded printed payments plain whole no_user asked two_shown (inl two_are_shown)

abbrev keyed : Uuid → Time → Key.IdempotencyStatus → IdempotencyKey
keyed user at status = record {
  key = codes "k1";
  user_id = user;
  fingerprint = codes "abc";
  expires_at = 86400000000;
  status = status;
  response = none;
  request_id = none;
  correlation_id = none;
  locked_until = none;
  locked_by = none;
  idempotency_id = 900;
  created_at = at;
  updated_at = at;
}

abbrev user_keys : Keys
user_keys = keyed 2 1 Key.failed ∷ keyed 3 2 Key.pending ∷ keyed 2 3 Key.pending ∷ []

get_keys_by_user_complete_example :
    (ks : Keys) × (get_keys_by_user user_keys 2 100 0 ≡ ok ks)
    × ((test : IdempotencyKey → Bool)
        → count_by test ks ≡ count_by (λ k. has_owner 2 k && test (made k)) user_keys)
unfolding is_blank count_by_user
get_keys_by_user_complete_example =
    ByUser.get_keys_by_user_complete user_keys 2 100 refl (omega arith) (omega arith) (omega arith)
      (omega arith)
