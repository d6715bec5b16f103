-- ===== src/Http/Entry/Checked.antt =====
-- What has been checked of a request that reaches its view (src/payment_service/middleware/auth.py,
-- src/payment_service/auth/jwt_verifier.py, src/application/idempotency/middleware.py).
use microservice_payment_ser.Base.{
  ◌+◌, ◌<◌, ◌≡◌, refl, ap, ◌∙◌, true, false, Option, none, some, [], ◌∷◌, Option-cases, inl, inr,
  arith,
}
use microservice_payment_ser.Base.Text.{Text, codes, is_empty, strip}
use microservice_payment_ser.Base.Json.{Json, Members, Codec, get}
use microservice_payment_ser.Errors.{Time, Uuid, Result, ok, err, Result-cases}
use microservice_payment_ser.Idempotency.Key.{seconds}
use microservice_payment_ser.Http.Requests.{Request}
use microservice_payment_ser.Http.Entry.{
  KeyCache, Decoded, decoded, starts_with, after_space, fetch_public_key, fresh_key, get_public_key,
  verify_token, Passage, stopped, crashed, passed, user_from, authenticate, is_protected,
  require_key, Incoming, enter, after_both,
}

begins-full :
    (s : Text) → starts_with (codes "-----BEGIN PUBLIC KEY-----") s ≡ true → is_empty s ≡ false
begins-full [] h = ground arith
begins-full (c ∷ s) h = refl

fetch_public_key-full :
    (fetched : Result Text) (k : Text) → fetch_public_key fetched ≡ ok k → is_empty k ≡ false
unfolding fetch_public_key
fetch_public_key-full (err e) k h = ground arith
fetch_public_key-full (ok text) k h = ground (arith, begins-full (strip text))

-- A key that has been fetched is used for 300 seconds: until then every further request for the key
-- gives the same key and leaves the cache alone, whatever a new fetch would bring.
pub key_reused :
    (now later : Time) (fetched other : Result Text) (k : Text) (cache cache' : KeyCache)
    → fresh_key now cache ≡ none
    → get_public_key now fetched cache ≡ (ok k, cache')
    → later < now + seconds 300
    → get_public_key later other cache' ≡ (ok k, cache')
unfolding get_public_key
key_reused now later fetched other k cache cache' stale h soon =
    elim (Result-cases (fetch_public_key fetched)) [
      | inl (k', e) ↦ ground (arith, fetch_public_key-full fetched k')
      | inr (x, e) ↦ ground arith
    ]

require_key-passed :
    (c : Codec) (method path : Text) (key : Option Text)
    → is_protected method path ≡ true
    → require_key c method path key ≡ passed tt
    → (k : Text) × (u : Uuid) × (key ≡ some k) × (c.uuid_of k ≡ some u)
unfolding require_key
require_key-passed c method path none guarded h = absurd (ground arith)
require_key-passed c method path (some k) guarded h = elim (Option-cases (c.uuid_of k)) [
  | inl e ↦ absurd (ground arith)
  | inr (u, e) ↦ (k, u, refl, e)
]

-- The token of a user: a key under which it decodes, to a payload with the user.
pub record Vouched (decode : Text → Text → Decoded) (header : Text) (u : Json) : Type 0 where
  pub key : Text
  pub payload : Members
  pub bearer : starts_with (codes "Bearer ") header ≡ true
  pub decodes : decode (strip (after_space header)) key ≡ decoded payload
  pub names_user : get "user_id" payload ≡ some u

user_from-passed :
    (r : Result Members) (u : Json)
    → user_from r ≡ passed (some u)
    → (payload : Members) × (r ≡ ok payload) × (get "user_id" payload ≡ some u)
user_from-passed (ok payload) u h = (payload, refl, ground arith)
user_from-passed (err e) u h = ground arith

verify_token-ok :
    (decode : Text → Text → Decoded) (now : Time) (fetched : Result Text) (token : Text)
    (cache : KeyCache) (payload : Members)
    → (verify_token decode now fetched token cache).0 ≡ ok payload
    → (key : Text) × (decode token key ≡ decoded payload)
unfolding verify_token
verify_token-ok decode now fetched token cache payload h =
    elim (Result-cases (get_public_key now fetched cache).0) [
      | inl (k, e) ↦ (k, ground arith)
      | inr (x, e) ↦ absurd (ground arith)
    ]

authenticate-Vouched :
    (decode : Text → Text → Decoded) (now : Time) (fetched : Result Text) (header : Option Text)
    (cache : KeyCache) (u : Json)
    → (authenticate decode now fetched header cache).0 ≡ passed (some u)
    → (text : Text) × (header ≡ some text) × Vouched decode text u
unfolding authenticate
authenticate-Vouched decode now fetched none cache u h = absurd (ground arith)
authenticate-Vouched decode now fetched (some header) cache u h =
    let verified = (verify_token decode now fetched (strip (after_space header)) cache).0 in
    let (bearer, passes) : (starts_with (codes "Bearer ") header ≡ true)
        × (user_from verified ≡ passed (some u)) =
      ground arith in
    let (payload, given, named) = user_from-passed verified u passes in
    let (key, decodes) =
      verify_token-ok decode now fetched (strip (after_space header)) cache payload given in
    (
      header,
      refl,
      record {
        key = key;
        payload = payload;
        bearer = bearer;
        decodes = decodes;
        names_user = named;
      },
    )

after_both-passed :
    (i : Incoming) (user : Passage (Option Json)) (gate : Passage (Unit {0})) (q : Request)
    → after_both i user gate ≡ passed q
    → (user ≡ passed q.user_id) × (gate ≡ passed tt) × (q.idempotency_key ≡ i.idempotency_key)
after_both-passed i (stopped status text) gate q h = absurd (ground arith)
after_both-passed i (crashed e) gate q h = absurd (ground arith)
after_both-passed i (passed u) (stopped status text) q h = absurd (ground arith)
after_both-passed i (passed u) (crashed e) q h = absurd (ground arith)
after_both-passed i (passed u) (passed done) q h = ground arith

enter-steps :
    (decode : Text → Text → Decoded) (c : Codec) (now : Time) (fetched : Result Text) (i : Incoming)
    (cache : KeyCache) (q : Request)
    → (enter decode c now fetched i cache).0 ≡ passed q
    → ((authenticate decode now fetched i.authorization cache).0 ≡ passed q.user_id)
      × (require_key c i.http_method i.path i.idempotency_key ≡ passed tt)
      × (q.idempotency_key ≡ i.idempotency_key)
unfolding enter
enter-steps decode c now fetched i cache q h =
    after_both-passed i (authenticate decode now fetched i.authorization cache).0
      (require_key c i.http_method i.path i.idempotency_key) q h

-- A request with a user that passes both middlewares to the view of a protected path, with a
-- mutating method, carries a bearer token that decodes, under some key, to a payload with that user,
-- and an idempotency key that reads as a UUID.
pub entered_checked :
    (decode : Text → Text → Decoded) (c : Codec) (now : Time) (fetched : Result Text) (i : Incoming)
    (cache : KeyCache) (q : Request) (u : Json)
    → (enter decode c now fetched i cache).0 ≡ passed q
    → q.user_id ≡ some u
    → is_protected i.http_method i.path ≡ true
    → ((header : Text) × (i.authorization ≡ some header) × Vouched decode header u)
      × ((k : Text) × (id : Uuid) × (q.idempotency_key ≡ some k) × (c.uuid_of k ≡ some id))
entered_checked decode c now fetched i cache q u h mine guarded =
    let (seen, passes, same) = enter-steps decode c now fetched i cache q h in
    let user_of_passed : Option Json → Passage (Option Json) = λ v. passed v in
    let (k, id, given, reads) =
      require_key-passed c i.http_method i.path i.idempotency_key guarded passes in
    (
      authenticate-Vouched decode now fetched i.authorization cache u
          (seen ∙ ap user_of_passed mine),
      (k, id, same ∙ given, reads),
    )
