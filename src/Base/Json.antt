-- ===== src/Base/Json.antt =====
-- The JSON values that the program builds and reads, as Python dictionaries in insertion order, and
-- the printed forms of UUIDs, decimals and timestamps.
use Prim.Native.Nat.{ℕ}
use Prim.Native.String.{String}
use text.Mathlib.Text.{◌==◌}
use mathlib.Core.Path.{◌≡◌}
use mathlib.Core.Bool.{false}
use mathlib.Core.Option.{Option, none, some}
use microservice_payment_ser.Base.Tests.{if◌then◌else◌}
use microservice_payment_ser.Base.Text.{Text, is_empty}
use microservice_payment_ser.Base.Decimal.{Decimal}

mutual
  pub data Json : Type 0 where
    null : Json
    num : ℕ → Json
    str : Text → Json
    object : Members → Json

  pub data Members : Type 0 where
    end : Members
    member : String → Json → Members → Members

-- `d.get(key)`
abbrev pub get : String → Members → Option Json
get key end = none
get key (member k v rest) = if k == key then some v else get key rest

-- The text forms of the standard library: `str` and `UUID` of a UUID, `str` and `Decimal` of a
-- decimal, `isoformat` and `fromisoformat` of a timestamp, with the round trips that Python
-- documents. A UUID never prints as the empty text. The decimals are the finite ones.
pub record Codec : Type 0 where
  pub uuid_str : ℕ → Text
  pub uuid_of : Text → Option ℕ
  pub decimal_str : Decimal → Text
  pub decimal_of : Text → Option Decimal
  pub isoformat : ℕ → Text
  pub fromisoformat : Text → Option ℕ
  pub uuid_of-uuid_str : (u : ℕ) → uuid_of (uuid_str u) ≡ some u
  pub uuid_str_non_empty : (u : ℕ) → is_empty (uuid_str u) ≡ false
  pub decimal_of-decimal_str : (d : Decimal) → decimal_of (decimal_str d) ≡ some d
  pub fromisoformat-isoformat : (t : ℕ) → fromisoformat (isoformat t) ≡ some t
