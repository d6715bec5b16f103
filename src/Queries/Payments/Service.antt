-- ===== src/Queries/Payments/Service.antt =====
-- `PaymentQueryService` (src/application/payment/services/payment_query_service.py) and
-- `PaymentQueryHandler` (src/application/payment/handlers/payment_query_handler.py) over a
-- repository of queries. The guards on absent ids are not here: a UUID is always true.
use microservice_payment_ser.Base.{Bool, false, Option, none, some, List, map}
use microservice_payment_ser.Base.Text.{Text}
use microservice_payment_ser.Base.Decimal.{ℤ, pos, pos_part, Decimal, decimal_zero}
use microservice_payment_ser.Errors.{
  Uuid, Error, Result, ok, err, map_err, payment_not_found, payments_not_found,
}
use microservice_payment_ser.Executor.{PaymentView}
use microservice_payment_ser.Queries.Payments.{PaymentQueryRepository}

-- `max(x, 0)`
abbrev pub clamp : ℤ → ℤ
clamp x = pos (pos_part x)

-- `except PaymentNotFoundError: raise` and `except Exception`
abbrev pub not_found_or : Error → Error → Error
not_found_or other (payment_not_found u) = payment_not_found u
not_found_or other payments_not_found = payments_not_found
not_found_or other _ = other

module _ (repo : PaymentQueryRepository) where
  unfoldable pub get_payment : Uuid → Result PaymentView
  get_payment u = map_err (not_found_or (payment_not_found u)) (repo.by_id u)

  unfoldable pub get_payments_by_wallet : Uuid → ℤ → ℤ → Result (List PaymentView)
  get_payments_by_wallet u limit offset =
      map_err (not_found_or payments_not_found) (repo.by_wallet_id u (clamp limit) (clamp offset))

  unfoldable pub get_payments_by_user : Uuid → ℤ → ℤ → Result (List PaymentView)
  get_payments_by_user u limit offset = repo.by_user_id u (clamp limit) (clamp offset)

  unfoldable pub get_payments_by_reference : Uuid → Result (List PaymentView)
  get_payments_by_reference u = map_err (λ e. payments_not_found) (repo.by_reference_id u)

  -- the total, or zero when it cannot be had
  unfoldable pub total_or_zero : Uuid → Option Text → Result Decimal
  total_or_zero u status = elim (repo.total_by_wallet u status) [
    | ok total ↦ ok total
    | err e ↦ ok decimal_zero
  ]

  unfoldable pub payment_exists : Uuid → Result Bool
  payment_exists u = elim (repo.exists u) [ ok b ↦ ok b | err e ↦ ok false ]

  -- The handler; `get_user_by_id` of the other service may raise.
  module _ {User : Type 0} (get_user_by_id : Uuid → Result User) where
    -- The owner of a payment, if the other service tells.
    abbrev pub owner_of : PaymentView → PaymentView × Option User
    owner_of v = (v, elim (get_user_by_id v.user_id) [ ok user ↦ some user | err e ↦ none ])

    abbrev pub with_owners :
        (Error → Error) → Result (List PaymentView) → Result (List (PaymentView × Option User))
    with_owners wrap r = elim r [ ok views ↦ ok (map owner_of views) | err e ↦ err (wrap e) ]

    unfoldable pub get_payment_with_owner : Uuid → Result (PaymentView × Option User)
    unfolding get_payment
    get_payment_with_owner u = elim (get_payment u) [
      | ok v ↦ ok (owner_of v)
      | err e ↦ err (not_found_or (payment_not_found u) e)
    ]

    unfoldable pub get_payments_by_wallet_with_owner :
        Uuid → ℤ → ℤ → Result (List (PaymentView × Option User))
    unfolding get_payments_by_wallet
    get_payments_by_wallet_with_owner u limit offset =
        with_owners (λ e. payments_not_found) (get_payments_by_wallet u limit offset)

    unfoldable pub get_payments_by_user_with_owner :
        Uuid → ℤ → ℤ → Result (List (PaymentView × Option User))
    unfolding get_payments_by_user
    get_payments_by_user_with_owner u limit offset =
        with_owners (λ e. payments_not_found) (get_payments_by_user u limit offset)
