-- ===== src/Base/Decimal.antt =====
-- Finite values of Python's `Decimal`, as `coefficient * 10 ^ -scale`, with the comparisons that
-- the source makes.
use Prim.Native.Nat.{ℕ, suc, ◌+◌, ◌*◌, ◌^◌}
use mathlib.Core.Path.{◌≡◌}
use mathlib.Core.Bool.{Bool, false, not}
use microservice_payment_ser.Base.Tests.{leb}

-- `negsuc n` is -(n + 1)
pub data ℤ : Type 0 where
  pos : ℕ → ℤ
  negsuc : ℕ → ℤ

abbrev pub pos_part : ℤ → ℕ
pos_part (pos n) = n
pos_part (negsuc n) = 0

abbrev pub neg_part : ℤ → ℕ
neg_part (pos n) = 0
neg_part (negsuc n) = suc n

pub record Decimal : Type 0 where
  pub coefficient : ℤ
  pub scale : ℕ

abbrev pub decimal_zero : Decimal
decimal_zero = record { coefficient = pos 0; scale = 0 }

-- `a <= b`, both brought to one scale
abbrev pub decimal_le : Decimal → Decimal → Bool
decimal_le a b =
    leb (pos_part a.coefficient * 10 ^ b.scale + neg_part b.coefficient * 10 ^ a.scale)
      (pos_part b.coefficient * 10 ^ a.scale + neg_part a.coefficient * 10 ^ b.scale)

-- `a > b`
abbrev pub decimal_gt : Decimal → Decimal → Bool
decimal_gt a b = not (decimal_le a b)

-- `amount > 0`
abbrev pub IsPositive : Decimal → Type 0
IsPositive d = decimal_le d decimal_zero ≡ false
