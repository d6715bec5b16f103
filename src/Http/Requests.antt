-- ===== src/Http/Requests.antt =====
-- Requests, responses and what the views of src/apis/payment/command_views.py read from a request. A
-- text field that holds another JSON value is refused where the source would carry it along.
use microservice_payment_ser.Base.{
  Bool, true, false, not, ◌==◌, ℕ, Option, none, some, List, [], ◌∷◌, ◌++◌, if◌then◌else◌, ◌≡◌,
  refl, ◌⊎◌, inl, inr, Bool-cases,
}
use Prim.Native.String.{String}
use microservice_payment_ser.Base.Text.{Text, codes, text_eq, is_empty}
use microservice_payment_ser.Base.Decimal.{Decimal}
use microservice_payment_ser.Base.Json.{
  Json, Members, Codec, null, num, str, object, end, member, get,
}
use microservice_payment_ser.Errors.{
  Uuid, Time, Error, Result, ok, err, value_error, type_error, attribute_error, invalid_operation,
}
use microservice_payment_ser.Payment.Events.Serial.{or_value_error}

-- A request: the user that the middleware has set, the body as `json.loads` reads it (`none` for a
-- `JSONDecodeError`, whose text is `parse_error`), and the header `Idempotency-Key`.
pub record Request : Type 0 where
  pub http_method : Text
  pub user_id : Option Json
  pub body : Option Json
  pub parse_error : Text
  pub idempotency_key : Option Text

pub record Response : Type 0 where
  pub status : ℕ
  pub body : Members

-- `str` of a JSON value, and the timestamps that `JsonResponse` prints.
pub record Printing : Type 0 where
  pub str_of : Json → Text
  pub json_time : Time → Text
  pub str_of-str : (s : Text) → str_of (str s) ≡ s

-- How the reading of a request goes: the view has answered, an exception that nothing catches, or a
-- value to go on with.
pub data Reading {u} (Value : Type u) : Type u where
  answered : Response → Reading Value
  uncaught : Error → Reading Value
  value : Value → Reading Value

infixl 5 ◌>>=◌ ◌>>◌
abbrev pub ◌>>=◌ {u v} :
    {Value : Type u} {Next : Type v} → Reading Value → (Value → Reading Next) → Reading Next
answered r >>= next = answered r
uncaught e >>= next = uncaught e
value x >>= next = next x

abbrev pub ◌>>◌ {v} : {Next : Type v} → Reading (Unit {0}) → Reading Next → Reading Next
check >> rest = check >>= λ _. rest

abbrev pub error_body : Text → Members
error_body message = member "error" (str message) end

abbrev pub refuse : ℕ → Text → Response
refuse status message = record { status = status; body = error_body message }

-- `if test: return JsonResponse(...)`
abbrev pub answer_if : Bool → Response → Reading (Unit {0})
answer_if true r = answered r
answer_if false r = value tt

-- `not x`, for a JSON value
abbrev pub is_falsy : Json → Bool
is_falsy null = true
is_falsy (num n) = n == 0
is_falsy (str s) = is_empty s
is_falsy (object end) = true
is_falsy (object (member k v m)) = false

abbrev pub is_null : Json → Bool
is_null null = true
is_null _ = false

-- `body.get(key)`
abbrev pub field : String → Members → Json
field key m = elim (get key m) [ none ↦ null | some v ↦ v ]

-- `UUID(x)`: what is no text has no `replace`
abbrev pub uuid_from : Codec → Json → Result Uuid
uuid_from c (str s) = or_value_error "badly formed hexadecimal UUID string" (c.uuid_of s)
uuid_from c null = err (type_error "one of the arguments must be given")
uuid_from c _ = err (attribute_error "replace")

-- `Decimal(str(x))`
abbrev pub decimal_from : Codec → Printing → Json → Result Decimal
decimal_from c p j = elim (c.decimal_of (p.str_of j)) [
  | none ↦ err invalid_operation
  | some d ↦ ok d
]

-- `except (ValueError, TypeError)` around the conversions
abbrev pub or_bad_format {ℓ} : {A : Type ℓ} → Result A → Reading A
or_bad_format (ok a) = value a
or_bad_format (err (value_error m)) = answered (refuse 400 (codes "Invalid input format"))
or_bad_format (err (type_error m)) = answered (refuse 400 (codes "Invalid input format"))
or_bad_format (err e) = uncaught e

-- A conversion outside of any `try`.
abbrev pub or_uncaught {ℓ} : {A : Type ℓ} → Result A → Reading A
or_uncaught (ok a) = value a
or_uncaught (err e) = uncaught e

-- `UUID(s) if s else None`
abbrev pub optional_id : Codec → Json → Result (Option Uuid)
optional_id c j =
    if is_falsy j then ok none else elim (uuid_from c j) [ ok u ↦ ok (some u) | err e ↦ err e ]

-- The reference of a request, with its `except ValueError`.
abbrev pub or_bad_reference : Result (Option Uuid) → Reading (Option Uuid)
or_bad_reference (ok u) = value u
or_bad_reference (err (value_error m)) =
    answered (refuse 400 (codes "Invalid reference_id UUID format"))
or_bad_reference (err e) = uncaught e

abbrev pub is_post : Request → Bool
is_post q = text_eq q.http_method (codes "POST")

-- `not hasattr(request, "user_id") or not request.user_id`
abbrev pub user_of : Option Json → Reading Json
user_of none = answered (refuse 401 (codes "Authentication required"))
user_of (some u) =
    if is_falsy u then answered (refuse 401 (codes "Authentication required")) else value u

-- The body, whose `get` is called.
abbrev pub body_of : Response → Option Json → Reading Members
body_of bad none = answered bad
body_of bad (some (object m)) = value m
body_of bad (some _) = uncaught (attribute_error "get")

-- What every view begins with: the method, the user and the body, with the answer to a bad body.
unfoldable pub read_request : Response → Request → Reading (Json × Members)
read_request bad q = do
  answer_if (not (is_post q)) (refuse 405 (codes "Method not allowed"))
  user ← user_of q.user_id
  m ← body_of bad q.body
  value (user, m)

-- Without a user, a view answers 401, or 405 to another method.
pub read_request-anonymous :
    (bad : Response) (q : Request)
    → q.user_id ≡ none
    → (r : Response) × (read_request bad q ≡ answered r) × ((r.status ≡ 401) ⊎ (r.status ≡ 405))
unfolding read_request
read_request-anonymous bad q anonymous = elim (Bool-cases (is_post q)) [
  | inl e ↦ (refuse 401 (codes "Authentication required"), rw (e, anonymous) refl, inl refl)
  | inr e ↦ (refuse 405 (codes "Method not allowed"), rw e refl, inr refl)
]

abbrev pub key_of : Option Text → Reading Text
key_of none = answered (refuse 400 (codes "Missing Idempotency-Key header"))
key_of (some k) =
    if is_empty k then answered (refuse 400 (codes "Missing Idempotency-Key header")) else value k

-- The names in `missing_fields`, with commas between them.
abbrev pub joined : List Text → Text
joined [] = []
joined (x ∷ []) = x
joined (x ∷ y ∷ xs) = x ++ codes ", " ++ joined (y ∷ xs)

abbrev pub missing : String → Bool → List Text → List Text
missing name true names = codes name ∷ names
missing name false names = names

-- `if missing_fields: return ...`
abbrev pub answer_missing : List Text → Reading (Unit {0})
answer_missing [] = value tt
answer_missing (x ∷ xs) =
    answered (refuse 400 (codes "Missing required fields: " ++ joined (x ∷ xs)))

abbrev pub required : String → Bool → Reading (Unit {0})
required name absent =
    answer_if absent (refuse 400 (codes "Missing required field: " ++ codes name))
