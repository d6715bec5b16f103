-- ===== src/Http/Posting.antt =====
-- A well-formed request reaches the handler as it was meant (src/apis/payment/command_views.py).
use microservice_payment_ser.Base.{◌≡◌, refl, false, Option, none, some, []}
use microservice_payment_ser.Base.Text.{Text, codes, is_empty}
use microservice_payment_ser.Base.Json.{Json, Codec, str, object, end, member}
use microservice_payment_ser.Errors.{Uuid, ok, err, invalid_operation, value_error}
use microservice_payment_ser.Payment.Events.Serial.{option_json, option_uuid, optional_text}
use microservice_payment_ser.Commands.{CreateRequest}
use microservice_payment_ser.Http.Requests.{
  Request, Printing, value, uncaught, read_request, optional_id, decimal_from,
}
use microservice_payment_ser.Http.Creation.{read_external}

-- The request for the arguments of a deposit or a withdrawal, with an amount and an id of the payment
-- that may be ill-formed.
abbrev pub posted_raw : Codec → Text → CreateRequest → Json → Json → Request
posted_raw c key q amount payment_id = record {
  http_method = codes "POST";
  user_id = some (str (c.uuid_str q.user_id));
  body = some (
      object (
        member "wallet_id" (str (c.uuid_str q.wallet_id)) (
          member "amount" amount (
            member "currency" (str q.currency) (
              member "payment_method" (str q.payment_method) (
                member "reference_id" (option_uuid c.uuid_str q.reference_id) (
                  member "description" (option_json q.description)
                    (member "payment_id" payment_id end))))))));
  parse_error = [];
  idempotency_key = some key;
}

-- The request that a client posts for the arguments of a deposit or a withdrawal.
abbrev pub posted : Codec → Text → CreateRequest → Request
posted c key q =
    posted_raw c key q (str (c.decimal_str q.amount)) (option_uuid c.uuid_str q.payment_id)

optional_id-option_uuid :
    (c : Codec) (u : Option Uuid) → optional_id c (option_uuid c.uuid_str u) ≡ ok u
optional_id-option_uuid c none = refl
optional_id-option_uuid c (some u) = rw (c.uuid_str_non_empty u, c.uuid_of-uuid_str u) refl

pub optional_text-option_json : (s : Option Text) → optional_text (option_json s) ≡ ok s
optional_text-option_json none = refl
optional_text-option_json (some s) = refl

module _ (c : Codec) (p : Printing) where
  decimal_from-str :
      (q : CreateRequest) → decimal_from c p (str (c.decimal_str q.amount)) ≡ ok q.amount
  decimal_from-str q =
      rw (decimal_from, p.str_of-str (c.decimal_str q.amount), c.decimal_of-decimal_str q.amount)
        refl

  decimal_from-bad :
      (amount : Text)
      → c.decimal_of amount ≡ none
      → decimal_from c p (str amount) ≡ err invalid_operation
  decimal_from-bad amount bad = rw (decimal_from, p.str_of-str amount, bad) refl

  pub read_external-posted :
      (key : Text) (q : CreateRequest)
      → is_empty key ≡ false
      → is_empty q.currency ≡ false
      → is_empty q.payment_method ≡ false
      → read_external c p (posted c key q) ≡ value (record { key = key; request = q; subject = tt })
  unfolding read_external read_request
  read_external-posted key q named priced paid =
      rw
        (
          c.uuid_str_non_empty q.user_id,
          named,
          c.uuid_str_non_empty q.wallet_id,
          priced,
          paid,
          c.uuid_of-uuid_str q.wallet_id,
          c.uuid_of-uuid_str q.user_id,
          decimal_from-str q,
          optional_id-option_uuid c q.reference_id,
          optional_id-option_uuid c q.payment_id,
          optional_text-option_json q.description,
        )
        refl

  -- An amount that `Decimal` cannot read: `InvalidOperation` is no `ValueError`.
  pub read_external-bad_amount :
      (key amount : Text) (q : CreateRequest) (payment_id : Json)
      → is_empty key ≡ false
      → is_empty q.currency ≡ false
      → is_empty q.payment_method ≡ false
      → c.decimal_of amount ≡ none
      → read_external c p (posted_raw c key q (str amount) payment_id) ≡ uncaught invalid_operation
  unfolding read_external read_request
  read_external-bad_amount key amount q payment_id named priced paid bad =
      rw
        (
          c.uuid_str_non_empty q.user_id,
          named,
          c.uuid_str_non_empty q.wallet_id,
          priced,
          paid,
          c.uuid_of-uuid_str q.wallet_id,
          c.uuid_of-uuid_str q.user_id,
          decimal_from-bad amount bad,
        )
        refl

  -- An id of the payment that `UUID` cannot read, outside of any `try`.
  pub read_external-bad_payment_id :
      (key payment_id : Text) (q : CreateRequest)
      → is_empty key ≡ false
      → is_empty q.currency ≡ false
      → is_empty q.payment_method ≡ false
      → is_empty payment_id ≡ false
      → c.uuid_of payment_id ≡ none
      → read_external c p (posted_raw c key q (str (c.decimal_str q.amount)) (str payment_id))
        ≡ uncaught (value_error "badly formed hexadecimal UUID string")
  unfolding read_external read_request
  read_external-bad_payment_id key payment_id q named priced paid given bad =
      rw
        (
          c.uuid_str_non_empty q.user_id,
          named,
          c.uuid_str_non_empty q.wallet_id,
          priced,
          paid,
          c.uuid_of-uuid_str q.wallet_id,
          c.uuid_of-uuid_str q.user_id,
          decimal_from-str q,
          optional_id-option_uuid c q.reference_id,
          given,
          bad,
        )
        refl
