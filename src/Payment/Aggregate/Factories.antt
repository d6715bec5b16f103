-- ===== src/Payment/Aggregate/Factories.antt =====
-- The factories of src/domain/apps/payment/aggregate.py: what they return and what they refuse.
use microservice_payment_ser.Base.{◌≡◌, ◌≢◌, true, Option, some, arith}
use microservice_payment_ser.Base.Text.{Text, upper, upper_idem}
use microservice_payment_ser.Base.Decimal.{decimal_le, decimal_zero}
use microservice_payment_ser.Errors.{Uuid, ok, err, invalid_payment_amount}
use microservice_payment_ser.Payment.Types.{
  PaymentType, PaymentMethod, pending, deposit, refund, wallet,
}
use microservice_payment_ser.Payment.Aggregate.{
  PaymentAggregate, PaymentRequest, Env, create_deposit, create_withdrawal,
  create_payment_for_booking, create_refund, create_payment,
}
use microservice_payment_ser.Payment.Aggregate.Lifecycle.{IsValid}

-- What a factory that does not raise returns.
pub record IsNew (r : PaymentRequest) (t : PaymentType) (a : PaymentAggregate) : Type 0 where
  pub valid : IsValid a
  pub is_pending : a.status ≡ pending
  pub first : a.version ≡ 1
  pub of_type : a.payment_type ≡ t
  pub of_amount : a.amount ≡ r.amount
  pub of_wallet : a.wallet_id ≡ r.wallet_id
  pub of_user : a.user_id ≡ r.user_id
  pub in_currency : a.currency ≡ upper r.currency

create_payment-IsNew :
    (env : Env) (r : PaymentRequest) (t : PaymentType) (m : PaymentMethod) (d : Option Text)
    (a : PaymentAggregate)
    → create_payment env r t m d ≡ ok a
    → IsNew r t a
unfolding create_payment
create_payment-IsNew env r t m d a h = ground (arith, upper_idem r.currency)

-- A deposit that is created is new, carries what was asked for, and is not paid from the wallet.
pub create_deposit-IsNew :
    (env : Env) (r : PaymentRequest) (a : PaymentAggregate)
    → create_deposit env r ≡ ok a
    → IsNew r deposit a × (a.payment_method ≡ r.payment_method) × (a.payment_method ≢ wallet)
unfolding create_deposit
create_deposit-IsNew env r a h =
    (ground (arith, upper_idem r.currency), ground arith, λ e. ground arith)

-- A refund that is created is new, is paid from the wallet, and refers to the original payment.
pub create_refund-IsNew :
    (env : Env) (r : PaymentRequest) (original : Uuid) (a : PaymentAggregate)
    → create_refund env r original ≡ ok a
    → IsNew r refund a × (a.payment_method ≡ wallet) × (a.reference_id ≡ some original)
unfolding create_refund
create_refund-IsNew env r original a h = ground (arith, upper_idem r.currency)

-- An amount that is zero or negative is refused by every factory, with that amount in the error,
-- once the method is one that the factory supports.
pub create_rejects :
    (env : Env) (r : PaymentRequest) (other : Uuid)
    → decimal_le r.amount decimal_zero ≡ true
    → r.payment_method ≢ wallet
    → (create_deposit env r ≡ err (invalid_payment_amount r.amount))
      × (create_withdrawal env r ≡ err (invalid_payment_amount r.amount))
      × (create_payment_for_booking env r other ≡ err (invalid_payment_amount r.amount))
      × (create_refund env r other ≡ err (invalid_payment_amount r.amount))
unfolding create_deposit create_withdrawal create_payment_for_booking create_refund
create_rejects env r other low external = (ground arith, ground arith, ground arith, ground arith)
