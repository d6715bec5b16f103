-- ===== src/Base/Count.antt =====
-- How many elements of a list pass a Boolean test.
use Prim.Native.Nat.{ℕ, zero, suc, ◌+◌, ◌≤◌, ◌<◌}
use Prim.Native.Nat.{min}
use mathlib.Core.Path.{◌≡◌, refl}
use mathlib.Core.Bool.{Bool, true, not, ◌&&◌}
use mathlib.Core.List.{List, [], ◌∷◌}
use native.Mathlib.Omega.{arith}
use microservice_payment_ser.Base.Tests.{if◌then◌else◌}
use microservice_payment_ser.Base.Lists.{length, take, filter_by, any}

module _ {ℓ} {A : Type ℓ} where
  abbrev pub count_by : (A → Bool) → List A → ℕ
  count_by p [] = 0
  count_by p (x ∷ xs) = if p x then suc (count_by p xs) else count_by p xs

  pub count_by-le : (p : A → Bool) (xs : List A) → count_by p xs ≤ length xs
  count_by-le p [] = omega arith
  count_by-le p (x ∷ xs) = ground (arith, count_by-le p xs)

  pub count_by-take : (p : A → Bool) (n : ℕ) (xs : List A) → count_by p (take n xs) ≤ count_by p xs
  count_by-take p zero xs = omega arith
  count_by-take p (suc n) [] = omega arith
  count_by-take p (suc n) (x ∷ xs) = ground (arith, count_by-take p n xs)

  pub count_by-filter_by :
      (p q : A → Bool) (xs : List A) → count_by q (filter_by p xs) ≡ count_by (λ x. p x && q x) xs
  count_by-filter_by p q [] = refl
  count_by-filter_by p q (x ∷ xs) = ground (arith, count_by-filter_by p q xs)

  pub count_by_split :
      (p q : A → Bool) (xs : List A)
      → count_by (λ x. p x && q x) xs + count_by (λ x. p x && not (q x)) xs ≡ count_by p xs
  count_by_split p q [] = refl
  count_by_split p q (x ∷ xs) = ground (arith, count_by_split p q xs)

  pub count_by-and_le :
      (p q : A → Bool) (xs : List A) → count_by (λ x. p x && q x) xs ≤ count_by q xs
  count_by-and_le p q [] = omega arith
  count_by-and_le p q (x ∷ xs) = ground (arith, count_by-and_le p q xs)

  -- Of a list that passes whole, what `take` keeps passes whole.
  pub count_by-take_all :
      (p : A → Bool) (n : ℕ) (xs : List A)
      → count_by p xs ≡ length xs
      → count_by p (take n xs) ≡ min n (length xs)
  count_by-take_all p zero xs h = omega arith
  count_by-take_all p (suc n) [] h = omega arith
  count_by-take_all p (suc n) (x ∷ xs) h =
      ground (arith, count_by-take_all p n xs, count_by-le p xs)

  pub any→count_by : (p : A → Bool) (xs : List A) → any p xs ≡ true → 0 < count_by p xs
  any→count_by p [] h = cc
  any→count_by p (x ∷ xs) h = ground (arith, any→count_by p xs)

  pub count_by→any : (p : A → Bool) (xs : List A) → 0 < count_by p xs → any p xs ≡ true
  count_by→any p [] h = absurd (omega arith)
  count_by→any p (x ∷ xs) h = ground (arith, count_by→any p xs)
