-- ===== src/EventStore/Rows.antt =====
-- The rows of one aggregate in the event store, and their order by version.
use microservice_payment_ser.Base.{
  ℕ, suc, ◌+◌, ◌≤◌, ◌≡◌, refl, List, [], ◌∷◌, ◌++◌, length, leb, if◌then◌else◌, arith, append-nil,
  append_assoc, subst, ◌∙◌,
}
use native.Mathlib.Nat.{add-zero}
use microservice_payment_ser.EventStore.{StoredEvent}

-- Insertion by version, behind the rows of the same version.
unfoldable pub insert_by_version : StoredEvent → List StoredEvent → List StoredEvent
insert_by_version r [] = r ∷ []
insert_by_version r (x ∷ rows) =
    if leb x.aggregate_version r.aggregate_version
    then x ∷ insert_by_version r rows
    else r ∷ x ∷ rows

-- `order_by("aggregate_version")`
unfoldable pub order_by_version : List StoredEvent → List StoredEvent → List StoredEvent
unfolding insert_by_version
order_by_version sorted [] = sorted
order_by_version sorted (r ∷ rows) = order_by_version (insert_by_version r sorted) rows

-- The versions follow one another, from the one after `v`.
abbrev pub IsContiguous : ℕ → List StoredEvent → Type 0
IsContiguous v [] = Unit
IsContiguous v (r ∷ rows) = (r.aggregate_version ≡ v + 1) × IsContiguous (v + 1) rows

pub IsContiguous-append :
    (v : ℕ) (xs ys : List StoredEvent)
    → IsContiguous v xs
    → IsContiguous (v + length xs) ys
    → IsContiguous v (xs ++ ys)
IsContiguous-append v [] ys hx hy = rw (← add-zero v) hy
IsContiguous-append v (x ∷ xs) ys hx hy = (
  hx.0,
  IsContiguous-append (v + 1) xs ys hx.1 (subst (λ n. IsContiguous n ys) (shift v (length xs)) hy),
)
  where
    shift : (a b : ℕ) → a + suc b ≡ a + 1 + b
    shift a b = omega arith

-- No version passes `v`.
abbrev pub IsBelow : ℕ → List StoredEvent → Type 0
IsBelow v [] = Unit
IsBelow v (r ∷ rows) = (r.aggregate_version ≤ v) × IsBelow v rows

insert_by_version_last :
    (v : ℕ) (r : StoredEvent) (sorted : List StoredEvent)
    → IsBelow v sorted
    → r.aggregate_version ≡ v + 1
    → insert_by_version r sorted ≡ sorted ++ r ∷ []
unfolding insert_by_version
insert_by_version_last v r [] h e = refl
insert_by_version_last v r (x ∷ sorted) h e =
    ground (arith, insert_by_version_last v r sorted h.1 e)

IsBelow-snoc :
    (v : ℕ) (r : StoredEvent) (sorted : List StoredEvent)
    → IsBelow v sorted
    → r.aggregate_version ≡ v + 1
    → IsBelow (v + 1) (sorted ++ r ∷ [])
IsBelow-snoc v r [] h e = (omega arith, tt)
IsBelow-snoc v r (x ∷ sorted) h e = (omega arith, IsBelow-snoc v r sorted h.1 e)

order_by_version_from :
    (v : ℕ) (sorted rows : List StoredEvent)
    → IsBelow v sorted
    → IsContiguous v rows
    → order_by_version sorted rows ≡ sorted ++ rows
unfolding order_by_version
order_by_version_from v sorted [] hs hr = rw append-nil
order_by_version_from v sorted (r ∷ rows) hs hr = rw (insert_by_version_last v r sorted hs hr.0) (
    order_by_version_from (v + 1) (sorted ++ r ∷ []) rows (IsBelow-snoc v r sorted hs hr.0) hr.1
    ∙ append_assoc sorted (r ∷ []) rows)

-- Rows whose versions follow one another are in order already.
pub order_by_version-contiguous :
    (v : ℕ) (rows : List StoredEvent) → IsContiguous v rows → order_by_version [] rows ≡ rows
order_by_version-contiguous v rows h = order_by_version_from v [] rows tt h
