-- ===== src/Queries/Pages.antt =====
-- Querysets as the queries of src/infrastructure/repos use them: `order_by` and a slice.
use microservice_payment_ser.Base.{
  ℕ, zero, suc, ◌+◌, ◌*◌, ◌≤◌, ◌≡◌, refl, Bool, true, List, [], ◌∷◌, ◌++◌, length, take, arith,
  if◌then◌else◌, ◌∙◌, ap, sym, count_by,
}

module _ {ℓ} {A : Type ℓ} where
  abbrev pub drop : ℕ → List A → List A
  drop zero xs = xs
  drop (suc n) [] = []
  drop (suc n) (x ∷ xs) = drop n xs

  -- `xs[offset : offset + limit]`
  abbrev pub slice : ℕ → ℕ → List A → List A
  slice offset limit xs = take limit (drop offset xs)

  -- Insertion behind the elements that do not come after `x`.
  unfoldable pub insert_by : (A → A → Bool) → A → List A → List A
  insert_by after x [] = x ∷ []
  insert_by after x (y ∷ ys) = if after y x then x ∷ y ∷ ys else y ∷ insert_by after x ys

  -- `order_by`. The database leaves open how rows stand that are equal in the order; here they stay
  -- in the order of the table, and what rests on that says that there are none.
  unfoldable pub order_rows : (A → A → Bool) → List A → List A → List A
  unfolding insert_by
  order_rows after sorted [] = sorted
  order_rows after sorted (x ∷ xs) = order_rows after (insert_by after x sorted) xs

  -- Ordering keeps what can be counted.
  count_by-insert_by :
      (after : A → A → Bool) (q : A → Bool) (x : A) (xs : List A)
      → count_by q (insert_by after x xs) ≡ count_by q (x ∷ xs)
  unfolding insert_by
  count_by-insert_by after q x [] = refl
  count_by-insert_by after q x (y ∷ ys) = ground (arith, count_by-insert_by after q x ys)

  pub count_by-order_rows :
      (after : A → A → Bool) (q : A → Bool) (sorted xs : List A)
      → count_by q (order_rows after sorted xs) ≡ count_by q sorted + count_by q xs
  unfolding order_rows
  count_by-order_rows after q sorted [] = omega arith
  count_by-order_rows after q sorted (x ∷ xs) = ground (
    arith,
    count_by-order_rows after q (insert_by after x sorted) xs,
    count_by-insert_by after q x sorted,
  )

  pub length-count_by : (xs : List A) → length xs ≡ count_by (λ (x : A). true) xs
  length-count_by [] = refl
  length-count_by (x ∷ xs) = omega (arith, length-count_by xs)

  pub length-take_le : (n : ℕ) (xs : List A) → length (take n xs) ≤ n
  length-take_le zero xs = omega arith
  length-take_le (suc n) [] = omega arith
  length-take_le (suc n) (x ∷ xs) = omega (arith, length-take_le n xs)

  pub take-whole : (n : ℕ) (xs : List A) → length xs ≤ n → take n xs ≡ xs
  take-whole zero [] h = refl
  take-whole zero (x ∷ xs) h = absurd (omega (arith, h))
  take-whole (suc n) [] h = refl
  take-whole (suc n) (x ∷ xs) h = ap (λ ys. x ∷ ys) (take-whole n xs (omega (arith, h)))

  drop-nil : (n : ℕ) → drop n [] ≡ []
  drop-nil zero = refl
  drop-nil (suc n) = refl

  take-nil : (n : ℕ) → take {A = A} n [] ≡ []
  take-nil zero = refl
  take-nil (suc n) = refl

  take-take : (m n k : ℕ) (xs : List A) → k ≡ m + n → take m xs ++ take n (drop m xs) ≡ take k xs
  take-take zero n k xs h = let e : n ≡ k = omega (arith, h) in ap (λ j. take j xs) e
  take-take (suc m) n zero xs h = absurd (omega (arith, h))
  take-take (suc m) n (suc k) [] h = take-nil n
  take-take (suc m) n (suc k) (x ∷ xs) h = ap (λ ys. x ∷ ys) (take-take m n k xs (omega (arith, h)))

  drop-drop : (m n k : ℕ) (xs : List A) → k ≡ m + n → drop n (drop m xs) ≡ drop k xs
  drop-drop zero n k xs h = let e : n ≡ k = omega (arith, h) in ap (λ j. drop j xs) e
  drop-drop (suc m) n zero xs h = absurd (omega (arith, h))
  drop-drop (suc m) n (suc k) [] h = drop-nil n
  drop-drop (suc m) n (suc k) (x ∷ xs) h = drop-drop m n k xs (omega (arith, h))

  -- So many pages from a page on, one after the other.
  unfoldable pub pages : ℕ → ℕ → ℕ → List A → List A
  pages zero size i xs = []
  pages (suc n) size i xs = slice (i * size) size xs ++ pages n size (i + 1) xs

  pages-slice :
      (n size i k : ℕ) (xs : List A) → k ≡ n * size → pages n size i xs ≡ slice (i * size) k xs
  unfolding pages
  pages-slice zero size i k xs h =
      let e : 0 ≡ k = omega (arith, h) in ap (λ j. take j (drop (i * size) xs)) e
  pages-slice (suc n) size i k xs h =
      let here = i * size in
      let next : (i + 1) * size ≡ here + size = grind arith in
      let all : k ≡ size + n * size = grind (arith, h) in
      ap (λ ys. take size (drop here xs) ++ ys)
        (pages-slice n size (i + 1) (n * size) xs refl
          ∙ ap (take (n * size)) (sym (drop-drop here size ((i + 1) * size) xs next)))
      ∙ take-take size (n * size) k (drop here xs) all

  -- Enough pages have every row once, in order.
  pub pages_all : (n size : ℕ) (xs : List A) → length xs ≤ n * size → pages n size 0 xs ≡ xs
  pages_all n size xs h =
      let e : 0 * size ≡ 0 = omega arith in
      pages-slice n size 0 (n * size) xs refl
      ∙ ap (λ k. take (n * size) (drop k xs)) e
      ∙ take-whole (n * size) xs h
