-- ===== src/Http/Entry.antt =====
-- What a request passes before its view: src/payment_service/middleware/auth.py with
-- src/payment_service/auth/jwt_verifier.py, then src/application/idempotency/middleware.py. What
-- httpx fetches and what `jwt.decode` says are arguments.
use microservice_payment_ser.Base.{
  ℕ, suc, ◌+◌, ◌-◌, Bool, true, false, not, ◌&&◌, ◌||◌, Option, none, some, List, [], ◌∷◌, any, ltb,
  ◌==◌, if◌then◌else◌,
}
use Prim.Native.String.{String}
use microservice_payment_ser.Base.Text.{Text, codes, text_eq, is_empty, strip}
use microservice_payment_ser.Base.Json.{Json, Members, Codec}
use microservice_payment_ser.Errors.{
  Time, Error, Result, ok, err, ◌>>=◌, ◌>>◌, raise_if, authentication_failed,
}
use microservice_payment_ser.Action.{Action}
use microservice_payment_ser.Payment.Events.Serial.{item}
use microservice_payment_ser.Idempotency.Key.{seconds}
use microservice_payment_ser.Http.Requests.{Request}
pub mod Checked
mod Tests

-- `_public_key_cache` and `_last_fetch_time`
pub record KeyCache : Type 0 where
  pub public_key : Option Text
  pub last_fetch_time : Time

-- What `jwt.decode` gives or raises: `ExpiredSignatureError`, or another `InvalidTokenError`.
pub data Decoded : Type 0 where
  decoded : Members → Decoded
  expired_signature invalid_token : Decoded

-- `s.startswith(prefix)`
abbrev pub starts_with : Text → Text → Bool
starts_with [] s = true
starts_with (p ∷ ps) [] = false
starts_with (p ∷ ps) (c ∷ s) = p == c && starts_with ps s

-- `token.count(".")`
abbrev pub dots : Text → ℕ
dots [] = 0
dots (c ∷ s) = if c == 46 then suc (dots s) else dots s

-- `header.split(" ", 1)[1]`
abbrev pub after_space : Text → Text
after_space [] = []
after_space (c ∷ s) = if c == 32 then s else after_space s

-- `_fetch_public_key`, on the text of the response or the exception of httpx
unfoldable pub fetch_public_key : Result Text → Result Text
unfolding strip
fetch_public_key fetched = do
  text ← fetched
  raise_if (not (starts_with (codes "-----BEGIN PUBLIC KEY-----") (strip text)))
      (authentication_failed "Invalid public key format")
  ok (strip text)

-- `cls._public_key_cache and (now - cls._last_fetch_time) < cls._cache_ttl`
abbrev pub fresh_key : Time → KeyCache → Option Text
fresh_key now cache = elim cache.public_key [
  | none ↦ none
  | some k ↦
      if not (is_empty k) && ltb (now - cache.last_fetch_time) (seconds 300) then some k else none
]

unfoldable pub get_public_key : Time → Result Text → Action KeyCache Text
unfolding fetch_public_key
get_public_key now fetched cache = elim (fresh_key now cache) [
  | some k ↦ (ok k, cache)
  | none ↦ elim (fetch_public_key fetched) [
    | ok k ↦ (ok k, record { public_key = some k; last_fetch_time = now })
    | err e ↦ (err e, cache)
  ]
]

abbrev pub payload_of : Decoded → Result Members
payload_of (decoded m) = ok m
payload_of expired_signature = err (authentication_failed "Token expired")
payload_of invalid_token = err (authentication_failed "Invalid token")

module _ (decode : Text → Text → Decoded) where
  unfoldable pub verify_token : Time → Result Text → Text → Action KeyCache Members
  unfolding get_public_key
  verify_token now fetched token cache =
      if ltb (dots token) 2
      then (err (authentication_failed "Invalid JWT format"), cache)
      else let (key, cache') = get_public_key now fetched cache in
        elim key [ err e ↦ (err e, cache') | ok k ↦ (payload_of (decode token k), cache') ]

-- How a request fares: an answer with its status and text, an exception, or what is passed on.
pub data Passage {u} (Value : Type u) : Type u where
  stopped : ℕ → Text → Passage Value
  crashed : Error → Passage Value
  passed : Value → Passage Value

-- `except AuthenticationFailed`, and `payload["user_id"]`, whatever JSON value that is
abbrev pub user_from : Result Members → Passage (Option Json)
user_from (err (authentication_failed m)) = stopped 401 (codes m)
user_from (err e) = crashed e
user_from (ok payload) = elim (item "user_id" payload) [
  | err e ↦ crashed e
  | ok user ↦ passed (some user)
]

module _ (decode : Text → Text → Decoded) where
  -- `JWTAuthenticationMiddleware`: the `user_id` that it sets
  unfoldable pub authenticate :
      Time → Result Text → Option Text → KeyCache → Passage (Option Json) × KeyCache
  unfolding verify_token strip
  authenticate now fetched none cache = (passed none, cache)
  authenticate now fetched (some header) cache =
      if is_empty header
      then (passed none, cache)
      else if not (starts_with (codes "Bearer ") header)
      then (stopped 401 (codes "Authorization header must be 'Bearer <token>'"), cache)
      else if is_empty (strip (after_space header))
      then (stopped 401 (codes "Token is empty"), cache)
      else let (payload, cache') =
          verify_token decode now fetched (strip (after_space header)) cache in
        (user_from payload, cache')

abbrev pub idempotent_paths : List Text
idempotent_paths =
    codes "/payment_service/payments/deposits/"
    ∷ codes "/payment_service/payments/withdrawals/"
    ∷ codes "/payment_service/payments/booking-payments/"
    ∷ codes "/payment_service/payments/refunds/"
    ∷ []

abbrev pub is_mutating : Text → Bool
is_mutating method = any (text_eq method) (codes "POST" ∷ codes "PUT" ∷ codes "PATCH" ∷ [])

-- the condition that `IdempotencyMiddleware` skips on, negated
abbrev pub is_protected : Text → Text → Bool
is_protected method path =
    is_mutating method
    && any (text_eq path) idempotent_paths
    && not (starts_with (codes "/payment_service/idempotency/test/") path)

-- `IdempotencyMiddleware`
unfoldable pub require_key : Codec → Text → Text → Option Text → Passage (Unit {0})
require_key c method path key = if not (is_protected method path) then passed tt else elim key [
  | none ↦ stopped 400 (codes "Missing Idempotency-Key header for this endpoint")
  | some k ↦
      if is_empty k
      then stopped 400 (codes "Missing Idempotency-Key header for this endpoint")
      else elim (c.uuid_of k) [
        | none ↦ stopped 400 (codes "Idempotency-Key must be a valid UUID")
        | some u ↦ passed tt
      ]
]

-- A request as it comes in.
pub record Incoming : Type 0 where
  pub http_method : Text
  pub path : Text
  pub authorization : Option Text
  pub idempotency_key : Option Text
  pub body : Option Json
  pub parse_error : Text

abbrev pub request_for : Incoming → Option Json → Request
request_for i user = record {
  http_method = i.http_method;
  user_id = user;
  body = i.body;
  parse_error = i.parse_error;
  idempotency_key = i.idempotency_key;
}

-- The request that the view gets, once both let it pass.
abbrev pub after_both : Incoming → Passage (Option Json) → Passage (Unit {0}) → Passage Request
after_both i (stopped status text) gate = stopped status text
after_both i (crashed e) gate = crashed e
after_both i (passed u) (stopped status text) = stopped status text
after_both i (passed u) (crashed e) = crashed e
after_both i (passed u) (passed done) = passed (request_for i u)

-- The two in the order of `MIDDLEWARE`.
unfoldable pub enter :
    (Text → Text → Decoded)
    → Codec
    → Time
    → Result Text
    → Incoming
    → KeyCache
    → Passage Request × KeyCache
unfolding authenticate require_key
enter decode c now fetched i cache =
    let (user, cache') = authenticate decode now fetched i.authorization cache in
    (after_both i user (require_key c i.http_method i.path i.idempotency_key), cache')
