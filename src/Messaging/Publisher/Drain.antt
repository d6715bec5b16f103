-- ===== src/Messaging/Publisher/Drain.antt =====
-- What a batch of the outbox holds and what publishing it leaves
-- (src/messaging/kafka/outbox_publisher.py).
use microservice_payment_ser.Base.{
  ℕ, ◌+◌, ◌≤◌, ◌≡◌, refl, Bool, true, false, not, ◌&&◌, List, [], ◌∷◌, any, arith, map, ap, ◌∙◌,
  sym, length, filter_by, count_by, count_by-take, count_by-filter_by, count_by_split,
  count_by-and_le, count_by-take_all, any→count_by, count_by→any, ==_refl,
}
use Prim.Native.Nat.{min}
use microservice_payment_ser.Errors.{Uuid, Time}
use microservice_payment_ser.Outbox.{
  OutboxRow, Outbox, has_id, update_rows, unpublished, publish, is_unprocessed, insert_by_age,
  order_by_age, get_unpublished_events, is_none,
}
use microservice_payment_ser.Messaging.Publisher.Marks.{IsKnown, publish_all}

-- Rows that are published but not processed.
abbrev pub half_published : OutboxRow → Bool
half_published r = is_unprocessed r && not (is_none r.published_at)

abbrev covered : List Uuid → OutboxRow → Bool
covered us r = any (λ u. has_id u r) us

abbrev left_over : List Uuid → OutboxRow → Bool
left_over us r = is_unprocessed r && not (covered us r)

pub half_published-publish :
    (u : Uuid) (now : Time) (rows : Outbox)
    → any half_published rows ≡ false
    → any half_published (update_rows (unpublished u) (publish now) rows) ≡ false
unfolding update_rows
half_published-publish u now [] h = refl
half_published-publish u now (r ∷ rows) h = ground (arith, half_published-publish u now rows)

left_over-publish :
    (u : Uuid) (now : Time) (us : List Uuid) (rows : Outbox)
    → any half_published rows ≡ false
    → count_by (left_over us) (update_rows (unpublished u) (publish now) rows)
      ≤ count_by (left_over (u ∷ us)) rows
unfolding update_rows
left_over-publish u now us [] h = omega arith
left_over-publish u now us (r ∷ rows) h = ground (arith, left_over-publish u now us rows)

count_by-left_over_nil :
    (rows : Outbox) → count_by is_unprocessed rows ≡ count_by (left_over []) rows
count_by-left_over_nil [] = refl
count_by-left_over_nil (r ∷ rows) = ground (arith, count_by-left_over_nil rows)

publish_all-left :
    (now : Time) (us : List Uuid) (rows : Outbox)
    → any half_published rows ≡ false
    → (any half_published (publish_all now us rows) ≡ false)
      × (count_by is_unprocessed (publish_all now us rows) ≤ count_by (left_over us) rows)
unfolding publish_all
publish_all-left now [] rows h = (h, omega (arith, count_by-left_over_nil rows))
publish_all-left now (u ∷ us) rows h =
    let rest =
      publish_all-left now us (update_rows (unpublished u) (publish now) rows)
        (half_published-publish u now rows h) in
    (rest.0, omega (arith, rest.1, left_over-publish u now us rows h))

-- The batch.
module _ (q : OutboxRow → Bool) where
  count_by-insert_by_age :
      (r : OutboxRow) (rows : Outbox) → count_by q (insert_by_age r rows) ≡ count_by q (r ∷ rows)
  unfolding insert_by_age
  count_by-insert_by_age r [] = refl
  count_by-insert_by_age r (x ∷ rows) = ground (arith, count_by-insert_by_age r rows)

  count_by-order_by_age :
      (sorted rows : Outbox)
      → count_by q (order_by_age sorted rows) ≡ count_by q sorted + count_by q rows
  unfolding order_by_age
  count_by-order_by_age sorted [] = omega arith
  count_by-order_by_age sorted (r ∷ rows) =
      ground (
        arith,
        count_by-order_by_age (insert_by_age r sorted) rows,
        count_by-insert_by_age r sorted,
      )

length-count_by : (rows : Outbox) → length rows ≡ count_by (λ r. true) rows
length-count_by [] = refl
length-count_by (r ∷ rows) = omega (arith, length-count_by rows)

count_by-and_idem :
    (rows : Outbox)
    → count_by (λ r. is_unprocessed r && is_unprocessed r) rows ≡ count_by is_unprocessed rows
count_by-and_idem [] = refl
count_by-and_idem (r ∷ rows) = ground (arith, count_by-and_idem rows)

count_by-and_true :
    (rows : Outbox) → count_by (λ r. is_unprocessed r && true) rows ≡ count_by is_unprocessed rows
count_by-and_true [] = refl
count_by-and_true (r ∷ rows) = ground (arith, count_by-and_true rows)

abbrev pub ids : List OutboxRow → List Uuid
ids = map (λ r. r.id)

-- every row of `xs` has its id in `us`
Within : List Uuid → List OutboxRow → Type 0
Within us [] = Unit {0}
Within us (x ∷ xs) = (covered us x ≡ true) × Within us xs

Within-cons : (u : Uuid) (us : List Uuid) (xs : List OutboxRow) → Within us xs → Within (u ∷ us) xs
unfolding Within
Within-cons u us [] h = tt
Within-cons u us (x ∷ xs) h = (ground arith, Within-cons u us xs h.1)

Within-ids : (xs : List OutboxRow) → Within (ids xs) xs
unfolding Within
Within-ids [] = tt
Within-ids (x ∷ xs) = (ground (arith, ==_refl x.id), Within-cons x.id (ids xs) xs (Within-ids xs))

count_by-Within :
    (us : List Uuid) (xs : List OutboxRow)
    → Within us xs
    → count_by (λ r. is_unprocessed r && covered us r) xs ≡ count_by is_unprocessed xs
unfolding Within
count_by-Within us [] h = refl
count_by-Within us (x ∷ xs) h = ground (arith, count_by-Within us xs h.1)

-- A batch has every pending event, or as many as it can hold.
pub count_by-batch :
    (n : ℕ) (rows : Outbox)
    → count_by is_unprocessed (get_unpublished_events n rows) ≡ min n (count_by is_unprocessed rows)
unfolding get_unpublished_events
count_by-batch n rows =
    let pending = filter_by is_unprocessed rows in
    let sorted = order_by_age [] pending in
    let size : length sorted ≡ count_by is_unprocessed rows = omega (
      arith,
      length-count_by sorted,
      count_by-order_by_age (λ r. true) [] pending,
      count_by-filter_by is_unprocessed (λ r. true) rows,
      count_by-and_true rows,
    ) in
    let passing : count_by is_unprocessed sorted ≡ count_by is_unprocessed rows = omega (
      arith,
      count_by-order_by_age is_unprocessed [] pending,
      count_by-filter_by is_unprocessed is_unprocessed rows,
      count_by-and_idem rows,
    ) in
    count_by-take_all is_unprocessed n sorted (passing ∙ sym size) ∙ ap (min n) size

batch-le :
    (q : OutboxRow → Bool) (n : ℕ) (rows : Outbox)
    → count_by q (get_unpublished_events n rows) ≤ count_by (λ r. is_unprocessed r && q r) rows
unfolding get_unpublished_events
batch-le q n rows =
    let pending = filter_by is_unprocessed rows in
    let sorted = order_by_age [] pending in
    omega (
      arith,
      count_by-take q n sorted,
      count_by-order_by_age q [] pending,
      count_by-filter_by is_unprocessed q rows,
    )

-- The events of a batch are in the table.
pub IsKnown-batch :
    (n : ℕ) (rows : Outbox) (batch : List OutboxRow)
    → ((u : Uuid) → any (has_id u) batch ≡ true → any (has_id u) rows ≡ true)
    → IsKnown rows (ids batch)
unfolding IsKnown
IsKnown-batch n rows [] h = tt
IsKnown-batch n rows (x ∷ xs) h = (
  h x.id (ground (arith, ==_refl x.id)),
  IsKnown-batch n rows xs (λ u here. h u (ground (arith, here))),
)

pub known_in_table :
    (n : ℕ) (rows : Outbox) (u : Uuid)
    → any (has_id u) (get_unpublished_events n rows) ≡ true
    → any (has_id u) rows ≡ true
known_in_table n rows u h = count_by→any (has_id u) rows (
    omega (
      arith,
      any→count_by (has_id u) (get_unpublished_events n rows) h,
      batch-le (has_id u) n rows,
      count_by-and_le is_unprocessed (has_id u) rows,
    ))

-- Publishing a batch leaves the events that were not in it.
pub publish_all-batch :
    (n : ℕ) (now : Time) (rows : Outbox)
    → any half_published rows ≡ false
    → let rows' = publish_all now (ids (get_unpublished_events n rows)) rows in
      (any half_published rows' ≡ false)
      × (count_by is_unprocessed rows' + min n (count_by is_unprocessed rows)
          ≤ count_by is_unprocessed rows)
publish_all-batch n now rows h =
    let batch = get_unpublished_events n rows in
    let us = ids batch in
    let done = publish_all-left now us rows h in
    let q : OutboxRow → Bool = λ r. is_unprocessed r && covered us r in
    (
      done.0,
      omega (
        arith,
        done.1,
        count_by-batch n rows,
        count_by-Within us batch (Within-ids batch),
        batch-le q n rows,
        count_by-and_le is_unprocessed q rows,
        count_by_split is_unprocessed (covered us) rows,
      ),
    )
