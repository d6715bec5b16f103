-- ===== src/Queries/Payments/Views.antt =====
-- The views of src/apis/payment/query_views.py. `int` of a JSON value is a parameter; the body of a
-- listing is the list of what it shows.
use microservice_payment_ser.Base.{Bool, not, leb, Option, none, some, List, if◌then◌else◌}
use Prim.Native.String.{String}
use microservice_payment_ser.Base.Text.{codes, text_eq}
use microservice_payment_ser.Base.Decimal.{ℤ, pos, negsuc}
use microservice_payment_ser.Base.Json.{Json, Members, Codec, num, get}
use microservice_payment_ser.Errors.{
  Uuid, Result, ok, err, payment_not_found, payments_not_found, value_error,
}
use microservice_payment_ser.Executor.{PaymentView}
use microservice_payment_ser.Http.Requests.{
  Request, Response, Reading, answered, uncaught, value, ◌>>=◌, ◌>>◌, refuse, answer_if, is_falsy,
  field, uuid_from, or_uncaught, read_request, body_of,
}
use microservice_payment_ser.Queries.Payments.{PaymentQueryRepository}
use microservice_payment_ser.Queries.Payments.Service.{
  payment_exists, get_payment_with_owner, get_payments_by_wallet_with_owner,
  get_payments_by_user_with_owner,
}

-- What a view of a query answers.
pub data Answer (Shown : Type 0) : Type 0 where
  shown : Shown → Answer Shown
  refused : Response → Answer Shown

abbrev server_error : Response
server_error = refuse 500 (codes "Internal server error")

abbrev pub bad_json : Response
bad_json = refuse 400 (codes "Invalid JSON body")

-- `min(x, 500)`
abbrev pub capped : ℤ → ℤ
capped (pos n) = if leb n 500 then pos n else pos 500
capped (negsuc n) = negsuc n

-- `body.get(key, default)`
abbrev pub field_or : String → Json → Members → Json
field_or key default m = elim (get key m) [ none ↦ default | some v ↦ v ]

-- `UUID(x)` with its `except ValueError`
abbrev or_bad_id : Response → Result Uuid → Reading Uuid
or_bad_id bad (ok u) = value u
or_bad_id bad (err (value_error m)) = answered bad
or_bad_id bad (err e) = uncaught e

-- The answer after the `try`.
abbrev pub concluded : {B : Type 0} → Result B → Result (Answer B)
concluded (ok b) = ok (shown b)
concluded (err e) = ok (refused server_error)

module _ {User : Type 0} (c : Codec) (int : Json → Result ℤ) (repo : PaymentQueryRepository)
    (get_user_by_id : Uuid → Result User) where
  abbrev Shown : Type 0
  Shown = PaymentView × Option User

  abbrev pub run_reading : {A B : Type 0} → (A → Result B) → Reading A → Result (Answer B)
  run_reading run (answered r) = ok (refused r)
  run_reading run (uncaught e) = err e
  run_reading run (value a) = concluded (run a)

  -- `get_payment`
  unfoldable pub get_payment_view : Uuid → Request → Result (Answer Shown)
  unfolding get_payment_with_owner
  get_payment_view u q =
      if not (text_eq q.http_method (codes "GET"))
      then ok (refused (refuse 405 (codes "Method not allowed")))
      else elim (get_payment_with_owner repo get_user_by_id u) [
        | ok dto ↦ ok (shown dto)
        | err (payment_not_found v) ↦ ok (refused (refuse 404 (codes "Payment not found")))
        | err payments_not_found ↦ ok (refused (refuse 404 (codes "Payment not found")))
        | err _ ↦ ok (refused server_error)
      ]

  abbrev pub read_page : Members → Reading (ℤ × ℤ)
  read_page m = do
    limit ← or_uncaught (int (field_or "limit" (num 50) m))
    offset ← or_uncaught (int (field_or "offset" (num 0) m))
    value (capped limit, offset)

  abbrev pub page_for : Members → Uuid → Reading (Uuid × (ℤ × ℤ))
  page_for m u = do page ← read_page m; value (u, page)

  abbrev pub user_asked : Json × Members → Reading (Uuid × (ℤ × ℤ))
  user_asked x = or_uncaught (uuid_from c x.0) >>= page_for x.1

  -- `list_payments_by_user`; the body of the request is that of `request.body or b"{}"`
  unfoldable pub list_payments_by_user : Request → Result (Answer (List Shown))
  unfolding get_payments_by_user_with_owner read_request
  list_payments_by_user q =
      run_reading
        (λ (x : Uuid × (ℤ × ℤ)).
          get_payments_by_user_with_owner repo get_user_by_id x.0 x.1.0 x.1.1)
        (read_request bad_json q >>= user_asked)

  abbrev pub wallet_id_of : Members → Reading Uuid
  wallet_id_of m =
      or_bad_id (refuse 400 (codes "Invalid wallet_id UUID format"))
        (uuid_from c (field "wallet_id" m))

  abbrev pub needs_wallet_id : Members → Reading (Unit {0})
  needs_wallet_id m =
      answer_if (is_falsy (field "wallet_id" m)) (refuse 400 (codes "Missing 'wallet_id'"))

  abbrev pub wallet_asked : Json × Members → Reading (Uuid × (ℤ × ℤ))
  wallet_asked x = needs_wallet_id x.1 >>= λ _. wallet_id_of x.1 >>= page_for x.1

  -- `list_payments_by_wallet`
  unfoldable pub list_payments_by_wallet : Request → Result (Answer (List Shown))
  unfolding get_payments_by_wallet_with_owner read_request
  list_payments_by_wallet q =
      run_reading
        (λ (x : Uuid × (ℤ × ℤ)).
          get_payments_by_wallet_with_owner repo get_user_by_id x.0 x.1.0 x.1.1)
        (read_request bad_json q >>= wallet_asked)

  -- `check_payment_exists`, which asks for no user
  unfoldable pub check_payment_exists : Request → Result (Answer Bool)
  unfolding payment_exists
  check_payment_exists q =
      run_reading (λ u. payment_exists repo u)
        (do
          answer_if (not (text_eq q.http_method (codes "POST")))
              (refuse 405 (codes "Method not allowed"))
          m ← body_of bad_json q.body
          answer_if (is_falsy (field "payment_id" m)) (refuse 400 (codes "Missing 'payment_id'"))
          or_bad_id (refuse 400 (codes "Invalid UUID format")) (uuid_from c (field "payment_id" m)))
