-- ===== src/Http/Entry/Tests.antt =====
-- The middlewares at concrete inputs: a token of three parts, and a key that decodes it.
use microservice_payment_ser.Base.{◌≡◌, refl, none, some, [], ◌∷◌, arith}
use microservice_payment_ser.Base.Text.{Text, codes}
use microservice_payment_ser.Base.Json.{str, object, end, member}
use microservice_payment_ser.Errors.{Uuid, ok, err, type_error}
use microservice_payment_ser.Samples.{plain}
use microservice_payment_ser.Http.Requests.{Request}
use microservice_payment_ser.Http.Entry.{
  KeyCache, Decoded, decoded, Incoming, passed, enter, get_public_key, request_for,
}
use microservice_payment_ser.Http.Entry.Checked
use microservice_payment_ser.Http.Entry.Checked.{Vouched}

abbrev says_two : Text → Text → Decoded
says_two token key = decoded (member "user_id" (str (2 ∷ [])) end)

abbrev no_key : KeyCache
no_key = record { public_key = none; last_fetch_time = 0 }

abbrev pem : Text
pem = codes "-----BEGIN PUBLIC KEY-----x"

abbrev deposit : Incoming
deposit = record {
  http_method = codes "POST";
  path = codes "/payment_service/payments/deposits/";
  authorization = some (codes "Bearer a.b.c");
  idempotency_key = some (7 ∷ []);
  body = some (object end);
  parse_error = [];
}

abbrev let_in : Request
let_in = request_for deposit (some (str (2 ∷ [])))

deposit_enters : (enter says_two plain 5 (ok pem) deposit no_key).0 ≡ passed let_in
unfolding enter
deposit_enters = refl

entered_checked_example :
    ((header : Text) × (deposit.authorization ≡ some header)
      × Vouched says_two header (str (2 ∷ [])))
    × ((k : Text) × (id : Uuid) × (let_in.idempotency_key ≡ some k) × (plain.uuid_of k ≡ some id))
entered_checked_example =
    Checked.entered_checked says_two plain 5 (ok pem) deposit no_key let_in (str (2 ∷ []))
      deposit_enters refl refl

abbrev one_key : KeyCache
one_key = record { public_key = some pem; last_fetch_time = 5 }

fetches : get_public_key 5 (ok pem) no_key ≡ (ok pem, one_key)
unfolding get_public_key
fetches = refl

no_second_fetch : get_public_key 99 (err (type_error "no connection")) one_key ≡ (ok pem, one_key)
no_second_fetch =
    Checked.key_reused 5 99 (ok pem) (err (type_error "no connection")) pem no_key one_key refl
      fetches (omega arith)
