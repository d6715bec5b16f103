-- ===== src/Queries/Payments/Listing.antt =====
-- What the listings of payments show
-- (src/application/payment/services/payment_query_service.py).
use microservice_payment_ser.Base.{
  suc, ◌<◌, ◌≡◌, refl, Bool, false, ltb, leb, ◌==◌, ==_refl, ◌≤◌, List, [], ◌∷◌, ◌++◌, any, map,
  length, count_by, arith, Bool-cases, inl, inr, ◌∙◌, ap,
}
use microservice_payment_ser.Base.Text.{Text}
use microservice_payment_ser.Base.Decimal.{Decimal}
use microservice_payment_ser.Errors.{Time}
use microservice_payment_ser.Executor.{PaymentView}
use microservice_payment_ser.Queries.Pages.{insert_by, order_rows}
use microservice_payment_ser.Queries.Payments.{TimedRow, ReadTable, to_view, newer}

pub map-append :
    {A B : Type 0} (f : A → B) (xs ys : List A) → map f (xs ++ ys) ≡ map f xs ++ map f ys
map-append f [] ys = refl
map-append f (x ∷ xs) ys = ap (λ zs. f x ∷ zs) (map-append f xs ys)

pub length-map : {A B : Type 0} (f : A → B) (xs : List A) → length (map f xs) ≡ length xs
length-map f [] = refl
length-map f (x ∷ xs) = ap (λ n. suc n) (length-map f xs)

-- A listing is newest first, and no two of its views are as old.
unfoldable pub IsNewestFirst : List PaymentView → Type 0
IsNewestFirst [] = Unit {0}
IsNewestFirst (v ∷ vs) =
    (any (λ (x : PaymentView). leb v.created_at x.created_at) vs ≡ false) × IsNewestFirst vs

module _ (normalized : Decimal → Text) where
  abbrev pub after : TimedRow → TimedRow → Bool
  after y x = newer normalized x y

  -- Rows that are newest first.
  unfoldable pub AreSorted : ReadTable → Type 0
  AreSorted [] = Unit {0}
  AreSorted (r ∷ rows) =
      (any (λ (x : TimedRow). ltb r.created_at x.created_at) rows ≡ false) × AreSorted rows

  any-insert_by :
      (r x : TimedRow) (rows : ReadTable)
      → ltb r.created_at x.created_at ≡ false
      → any (λ (y : TimedRow). ltb r.created_at y.created_at) rows ≡ false
      → any (λ (y : TimedRow). ltb r.created_at y.created_at) (insert_by after x rows) ≡ false
  unfolding insert_by
  any-insert_by r x [] h k = ground (arith, h)
  any-insert_by r x (y ∷ rows) h k = ground (arith, h, any-insert_by r x rows h)

  any_older :
      (r x : TimedRow) (rows : ReadTable)
      → x.created_at < r.created_at
      → any (λ (y : TimedRow). ltb x.created_at y.created_at) rows ≡ false
      → any (λ (y : TimedRow). ltb r.created_at y.created_at) rows ≡ false
  any_older r x [] h k = refl
  any_older r x (y ∷ rows) h k = ground (arith, any_older r x rows h)

  AreSorted-insert_by :
      (x : TimedRow) (rows : ReadTable) → AreSorted rows → AreSorted (insert_by after x rows)
  unfolding insert_by AreSorted
  AreSorted-insert_by x [] h = (refl, tt)
  AreSorted-insert_by x (y ∷ rows) (first, rest) =
      elim (Bool-cases (ltb y.created_at x.created_at)) [
        | inl e ↦
            rw e (ground (arith, e, any_older x y rows (ground (arith, e)) first), (first, rest))
        | inr e ↦ rw e (any-insert_by y x rows e first, AreSorted-insert_by x rows rest)
      ]

  pub AreSorted-order_rows :
      (sorted rows : ReadTable) → AreSorted sorted → AreSorted (order_rows after sorted rows)
  unfolding order_rows
  AreSorted-order_rows sorted [] h = h
  AreSorted-order_rows sorted (r ∷ rows) h =
      AreSorted-order_rows (insert_by after r sorted) rows (AreSorted-insert_by r sorted h)

  pub count_by-map :
      (test : PaymentView → Bool) (rows : ReadTable)
      → count_by test (map (to_view normalized) rows)
        ≡ count_by (λ r. test (to_view normalized r)) rows
  count_by-map test [] = refl
  count_by-map test (r ∷ rows) = ground (arith, count_by-map test rows)

  -- How many rows are of a time.
  abbrev pub of_time : Time → TimedRow → Bool
  of_time at r = r.created_at == at

  any-strict :
      (r : TimedRow) (rows : ReadTable)
      → any (λ (x : TimedRow). ltb r.created_at x.created_at) rows ≡ false
      → count_by (of_time r.created_at) rows ≡ 0
      → any (λ (x : TimedRow). leb r.created_at x.created_at) rows ≡ false
  any-strict r [] h few = refl
  any-strict r (x ∷ rows) h few = ground (arith, any-strict r rows)

  any-map :
      (r : TimedRow) (rows : ReadTable)
      → any
          (λ (x : PaymentView). leb (to_view normalized r).created_at x.created_at)
          (map (to_view normalized) rows)
        ≡ any (λ (x : TimedRow). leb r.created_at x.created_at) rows
  unfolding to_view
  any-map r [] = refl
  any-map r (x ∷ rows) = ground (arith, any-map r rows)

  tail_few :
      (r : TimedRow) (rows : ReadTable)
      → ((at : Time) → count_by (of_time at) (r ∷ rows) ≤ 1)
      → (at : Time) → count_by (of_time at) rows ≤ 1
  tail_few r rows few at = ground (arith, few at)

  pub IsNewestFirst-map :
      (rows : ReadTable)
      → AreSorted rows
      → ((at : Time) → count_by (of_time at) rows ≤ 1)
      → IsNewestFirst (map (to_view normalized) rows)
  unfolding IsNewestFirst AreSorted
  IsNewestFirst-map [] h few = tt
  IsNewestFirst-map (r ∷ rows) (first, rest) few =
      let none_left : count_by (of_time r.created_at) rows ≡ 0 =
        ground (arith, few r.created_at, ==_refl r.created_at) in
      (
        any-map r rows ∙ any-strict r rows first none_left,
        IsNewestFirst-map rows rest (tail_few r rows few),
      )
