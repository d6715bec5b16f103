-- ===== src/Samples.antt =====
-- Concrete inputs of the tests: text forms that can be read back, empty tables, row ids.
use microservice_payment_ser.Base.{
  ℕ, ◌+◌, ◌≡◌, refl, false, Option, none, some, [], ◌∷◌, ◌==◌, arith, if◌then◌else◌,
}
use microservice_payment_ser.Base.Text.{Text}
use microservice_payment_ser.Base.Decimal.{ℤ, Decimal, pos, negsuc}
use microservice_payment_ser.Base.Json.{Codec}
use microservice_payment_ser.EventStore.{Database, Setting, Target}
use microservice_payment_ser.EventStore.Append.{IsFresh}
use microservice_payment_ser.Repository.{Source}

abbrev pub one_code : Text → Option ℕ
one_code (u ∷ []) = some u
one_code _ = none

abbrev pub decimal_codes : ℤ → ℕ → Text
decimal_codes (pos n) scale = 0 ∷ n ∷ scale ∷ []
decimal_codes (negsuc n) scale = 1 ∷ n ∷ scale ∷ []

abbrev pub codes_decimal : Text → Option Decimal
codes_decimal (sign ∷ n ∷ scale ∷ []) =
    if sign == 0
    then some (record { coefficient = pos n; scale = scale })
    else some (record { coefficient = negsuc n; scale = scale })
codes_decimal _ = none

pub codes_decimal-decimal_codes :
    (c : ℤ) (scale : ℕ)
    → codes_decimal (decimal_codes c scale) ≡ some (record { coefficient = c; scale = scale })
codes_decimal-decimal_codes (pos n) scale = refl
codes_decimal-decimal_codes (negsuc n) scale = refl

-- Every value prints as the numbers that it is made of.
abbrev pub plain : Codec
plain = record {
  uuid_str = λ u. u ∷ [];
  uuid_of = one_code;
  decimal_str = λ d. decimal_codes d.coefficient d.scale;
  decimal_of = codes_decimal;
  isoformat = λ t. t ∷ [];
  fromisoformat = one_code;
  uuid_of-uuid_str = λ u. refl;
  uuid_str_non_empty = λ u. refl;
  decimal_of-decimal_str = λ d. codes_decimal-decimal_codes d.coefficient d.scale;
  fromisoformat-isoformat = λ t. refl;
}

abbrev pub empty_database : Database
empty_database = record {
  events = [];
  outbox = [];
  projections = record { read_models = []; state = none };
}

-- Row ids from `base` on.
abbrev pub ids_from : ℕ → Setting
ids_from base = record {
  event_row_id = λ v. base + v;
  outbox_id = λ v. base + v;
  now = 5;
  debug = false;
}

abbrev pub at_load : Source
at_load = record { fresh_id = 3; now = 20 }

-- Empty tables know no id and no version.
pub empty-IsFresh : (base : ℕ) (t : Target) (v : ℕ) → IsFresh (ids_from base) t v empty_database
empty-IsFresh base t v = record {
  versions = λ k h. refl;
  row_ids = λ k h. refl;
  outbox_ids = λ k h. refl;
  rows_apart = λ j k apart e. apart (omega arith);
  outbox_apart = λ j k apart e. apart (omega arith);
}
