-- ===== src/Base/Lists.antt =====
-- Lists measured by native numbers, a filter by a Boolean test, and predicates on all elements.
use Prim.Native.Nat.{ℕ, zero, suc, ◌+◌}
use mathlib.Core.Path.{◌≡◌, refl}
use mathlib.Core.Bool.{Bool, true, false, ◌||◌}
use mathlib.Core.List.{List, [], ◌∷◌, ◌++◌}
use native.Mathlib.Omega.{arith}
use microservice_payment_ser.Base.Tests.{if◌then◌else◌, Bool-cases}
use mathlib.Core.Logic.{◌⊎◌, inl, inr}

module _ {ℓ} {A : Type ℓ} where
  abbrev pub length : List A → ℕ
  length [] = 0
  length (x ∷ xs) = suc (length xs)

  abbrev pub take : ℕ → List A → List A
  take zero xs = []
  take (suc n) [] = []
  take (suc n) (x ∷ xs) = x ∷ take n xs

  -- The library's `filter` takes a decision; the queries of the source are Boolean tests.
  abbrev pub filter_by : (A → Bool) → List A → List A
  filter_by p [] = []
  filter_by p (x ∷ xs) = if p x then x ∷ filter_by p xs else filter_by p xs

  abbrev pub any : (A → Bool) → List A → Bool
  any p [] = false
  any p (x ∷ xs) = if p x then true else any p xs

  pub length-append : (xs ys : List A) → length (xs ++ ys) ≡ length xs + length ys
  length-append [] ys = omega arith
  length-append (x ∷ xs) ys = omega (arith, length-append xs ys)

  pub filter_by-append :
      (p : A → Bool) (xs ys : List A) → filter_by p (xs ++ ys) ≡ filter_by p xs ++ filter_by p ys
  filter_by-append p [] ys = refl
  filter_by-append p (x ∷ xs) ys = elim (Bool-cases (p x)) [
    | inl e ↦ rw (e, filter_by-append p xs ys)
    | inr e ↦ rw (e, filter_by-append p xs ys)
  ]

  pub any-snoc :
      (p : A → Bool) (xs : List A) (x : A)
      → (any p xs ≡ true) ⊎ (p x ≡ true)
      → any p (xs ++ x ∷ []) ≡ true
  any-snoc p [] x h = ground arith
  any-snoc p (y ∷ xs) x h = ground (arith, any-snoc p xs x)

  pub any-snoc_false :
      (p : A → Bool) (xs : List A) (x : A)
      → any p xs ≡ false
      → p x ≡ false
      → any p (xs ++ x ∷ []) ≡ false
  any-snoc_false p [] x h k = ground arith
  any-snoc_false p (y ∷ xs) x h k = ground (arith, any-snoc_false p xs x)

  pub any-or_right :
      (p q : A → Bool) (xs : List A) → any q xs ≡ true → any (λ x. p x || q x) xs ≡ true
  any-or_right p q [] h = cc
  any-or_right p q (x ∷ xs) h = ground (arith, any-or_right p q xs)

  pub any-or_false :
      (p q : A → Bool) (xs : List A)
      → any p xs ≡ false
      → any q xs ≡ false
      → any (λ x. p x || q x) xs ≡ false
  any-or_false p q [] h k = refl
  any-or_false p q (x ∷ xs) h k = ground (arith, any-or_false p q xs)

  pub any-middle :
      (p : A → Bool) (xs ys : List A) (x : A) → p x ≡ true → any p (xs ++ x ∷ ys) ≡ true
  any-middle p [] ys x h = ground arith
  any-middle p (y ∷ xs) ys x h = ground (arith, any-middle p xs ys x)
