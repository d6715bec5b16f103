-- ===== src/Errors.antt =====
-- The exceptions that the modelled code raises, with what they carry
-- (src/domain/*/exceptions.py, src/domain/apps/payment/exceptions.py), and code that may raise.
use microservice_payment_ser.Base.{
  Bool, true, false, if◌then◌else◌, Option, ◌≡◌, refl, ◌⊎◌, inl, inr,
}
use microservice_payment_ser.Base.Text.{Text}
use microservice_payment_ser.Base.Decimal.{Decimal}
use Prim.Native.Nat.{ℕ}
use Prim.Native.String.{String}

-- A UUID is only compared, stored and printed.
abbrev pub Uuid : Type 0
Uuid = ℕ

-- A `datetime` in UTC, in microseconds.
abbrev pub Time : Type 0
Time = ℕ

pub data Error : Type 0 where
  -- `PaymentDomainError` with a message of the source, and with a text that is read
  payment_domain_error : String → Error
  payment_domain_error_text : Text → Error
  payment_already_processed : Uuid → Text → Error
  payment_not_processable : Uuid → Text → Text → Error
  invalid_payment_amount : Decimal → Error
  payment_method_not_supported : Text → Text → Error
  payment_not_found : Uuid → Error
  -- `PaymentNotFoundError` without the id of a payment
  payments_not_found : Error
  refund_amount_exceeds_original : Uuid → Decimal → Decimal → Text → Error
  projection_invariant_violation : Uuid → Error
  optimistic_concurrency : Uuid → ℕ → ℕ → Error
  outbox_save_error : Uuid → Error
  outbox_not_found : Uuid → Error
  key_already_exists : Text → Uuid → Error
  key_not_found : Text → Error
  key_expired : Text → Error
  key_already_used : Text → Error
  key_already_locked : Text → Option Text → Error
  key_in_progress : Text → Error
  key_reuse_with_different_payload : Text → Error
  key_too_long : Text → ℕ → Error
  invalid_key_format : Text → Error
  expiration_in_past : Time → Error
  response_missing : Text → Error
  invalid_state_transition : Text → String → Error
  -- Python's own
  value_error : String → Error
  runtime_error : String → Error
  type_error : String → Error
  dict_key_error : String → Error
  attribute_error : String → Error
  -- a value that its column cannot hold
  data_error : Error
  -- raised by the verification of a token
  authentication_failed : String → Error
  invalid_operation : Error
  -- Django's
  integrity_error : Error
  -- confluent_kafka's
  buffer_error : Error
  kafka_exception : Text → Error

-- What a call returns, or what it raises.
pub data Result {u} (Value : Type u) : Type u where
  err : Error → Result Value
  ok : Value → Result Value

-- `if test: raise e`
abbrev pub raise_if : Bool → Error → Result (Unit {0})
raise_if test e = if test then err e else ok tt

infixl 5 ◌>>=◌ ◌>>◌
abbrev pub ◌>>=◌ {u v} :
    {Value : Type u} {Next : Type v} → Result Value → (Value → Result Next) → Result Next
err raised >>= next = err raised
ok value >>= next = next value

-- a statement, and the rest of the body
abbrev pub ◌>>◌ {v} : {Next : Type v} → Result (Unit {0}) → Result Next → Result Next
statement >> rest = statement >>= λ _. rest

-- `isinstance(exc, PaymentDomainError)`
abbrev pub is_payment_domain_error : Error → Bool
is_payment_domain_error (payment_domain_error m) = true
is_payment_domain_error (payment_domain_error_text m) = true
is_payment_domain_error (payment_already_processed u s) = true
is_payment_domain_error (payment_not_processable u s a) = true
is_payment_domain_error (invalid_payment_amount d) = true
is_payment_domain_error (payment_method_not_supported m o) = true
is_payment_domain_error (payment_not_found u) = true
is_payment_domain_error payments_not_found = true
is_payment_domain_error (refund_amount_exceeds_original u a b c) = true
is_payment_domain_error _ = false

-- The two results of `try: m except Exception as exc: raise f(exc)`.
abbrev pub map_err {ℓ} : {A : Type ℓ} → (Error → Error) → Result A → Result A
map_err f (ok a) = ok a
map_err f (err e) = err (f e)

pub Result-cases {ℓ} :
    {A : Type ℓ} (r : Result A) → ((a : A) × (r ≡ ok a)) ⊎ ((e : Error) × (r ≡ err e))
Result-cases (ok a) = inl (a, refl)
Result-cases (err e) = inr (e, refl)
