-- ===== src/Payment/Types.antt =====
-- The enumerations of src/domain/apps/payment/models.py, with the texts that they stand for.
use microservice_payment_ser.Base.{◌≡◌, refl, Bool, true, false, Option, none, some, if◌then◌else◌}
use microservice_payment_ser.Base.Text.{Text, codes, text_eq}

pub data PaymentStatus : Type 0 where
  pending processing succeeded failed cancelled refunded : PaymentStatus

pub data PaymentType : Type 0 where
  deposit withdrawal payment refund adjustment : PaymentType

pub data PaymentMethod : Type 0 where
  wallet credit_card bank_transfer paypal other : PaymentMethod

pub PaymentStatus-discrete : Discrete PaymentStatus
PaymentStatus-discrete = hlevel

-- `PaymentStatus.value`
unfoldable pub status_value : PaymentStatus → Text
status_value pending = codes "pending"
status_value processing = codes "processing"
status_value succeeded = codes "succeeded"
status_value failed = codes "failed"
status_value cancelled = codes "cancelled"
status_value refunded = codes "refunded"

-- `PaymentType.value`
unfoldable pub type_value : PaymentType → Text
type_value deposit = codes "deposit"
type_value withdrawal = codes "withdrawal"
type_value payment = codes "payment"
type_value refund = codes "refund"
type_value adjustment = codes "adjustment"

-- `PaymentMethod.value`
unfoldable pub method_value : PaymentMethod → Text
method_value wallet = codes "wallet"
method_value credit_card = codes "credit_card"
method_value bank_transfer = codes "bank_transfer"
method_value paypal = codes "paypal"
method_value other = codes "other"

-- `PaymentType(text)`; `none` is the `ValueError`
unfoldable pub type_of : Text → Option PaymentType
unfolding type_value
type_of s =
    if text_eq s (type_value deposit)
    then some deposit
    else if text_eq s (type_value withdrawal)
    then some withdrawal
    else if text_eq s (type_value payment)
    then some payment
    else if text_eq s (type_value refund)
    then some refund
    else if text_eq s (type_value adjustment)
    then some adjustment
    else none

-- `PaymentMethod(text)`; `none` is the `ValueError`
unfoldable pub method_of : Text → Option PaymentMethod
unfolding method_value
method_of s =
    if text_eq s (method_value wallet)
    then some wallet
    else if text_eq s (method_value credit_card)
    then some credit_card
    else if text_eq s (method_value bank_transfer)
    then some bank_transfer
    else if text_eq s (method_value paypal)
    then some paypal
    else if text_eq s (method_value other)
    then some other
    else none

unfoldable pub is_pending : PaymentStatus → Bool
is_pending pending = true
is_pending _ = false

pub type_of-type_value : (t : PaymentType) → type_of (type_value t) ≡ some t
unfolding type_of
type_of-type_value deposit = refl
type_of-type_value withdrawal = refl
type_of-type_value payment = refl
type_of-type_value refund = refl
type_of-type_value adjustment = refl

pub method_of-method_value : (m : PaymentMethod) → method_of (method_value m) ≡ some m
unfolding method_of
method_of-method_value wallet = refl
method_of-method_value credit_card = refl
method_of-method_value bank_transfer = refl
method_of-method_value paypal = refl
method_of-method_value other = refl
