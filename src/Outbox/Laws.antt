-- ===== src/Outbox/Laws.antt =====
-- What the outbox repository promises (src/infrastructure/repos/outbox/orm_repository.py).
use microservice_payment_ser.Base.{
  ℕ, ◌+◌, ◌<◌, ◌≡◌, refl, ◌≢◌, Bool, true, false, [], ◌∷◌, ◌++◌, any, arith, Bool-cases, inl, inr,
  ==_refl, ap, ◌∙◌,
}
use Prim.Native.Nat.{max}
use microservice_payment_ser.Errors.{Uuid, Time, Result, ok, err, outbox_save_error}
use microservice_payment_ser.Outbox.{
  OutboxRow, Outbox, OutboxEvent, latest_version, new_row, violates, save, update_rows, has_id,
  unpublished, publish, mark_as_published,
}

-- No row of the aggregate has a version above the latest.
version_free :
    (e : OutboxEvent) (rows : Outbox) (v : ℕ)
    → latest_version e.aggregate_id rows < v
    → any (has_id e.id) rows ≡ false
    → violates (new_row e v) rows ≡ false
unfolding latest_version
version_free e [] v lt fresh = refl
version_free e (r ∷ rows) v lt fresh = ground (arith, version_free e rows v)

-- Saving an event whose id is new appends one unprocessed row for it, with the next version of its
-- aggregate, at the first attempt.
pub save_appends :
    (e : OutboxEvent) (rows : Outbox)
    → any (has_id e.id) rows ≡ false
    → save e rows ≡ (ok tt, rows ++ new_row e (latest_version e.aggregate_id rows + 1) ∷ [])
unfolding save
save_appends e rows fresh =
    rw (version_free e rows (latest_version e.aggregate_id rows + 1) (omega arith) fresh)

violates_of_id :
    (e : OutboxEvent) (v : ℕ) (rows : Outbox)
    → any (has_id e.id) rows ≡ true
    → violates (new_row e v) rows ≡ true
violates_of_id e v [] h = cc
violates_of_id e v (r ∷ rows) h = ground (arith, violates_of_id e v rows)

-- Saving an event whose id is already in the table fails at every attempt: it raises
-- `OutboxSaveError` and leaves the table as it was.
pub save_duplicate :
    (e : OutboxEvent) (rows : Outbox)
    → any (has_id e.id) rows ≡ true
    → save e rows ≡ (err (outbox_save_error e.aggregate_id), rows)
unfolding save
save_duplicate e rows old = rw (violates_of_id e (latest_version e.aggregate_id rows + 1) rows old)

latest_version-snoc :
    (u : Uuid) (rows : Outbox) (r : OutboxRow)
    → r.aggregate_id ≡ u
    → latest_version u (rows ++ r ∷ []) ≡ max (latest_version u rows) r.aggregate_version
unfolding latest_version
latest_version-snoc u [] r same = ground (arith, ==_refl u)
latest_version-snoc u (x ∷ rows) r same = ground (arith, latest_version-snoc u rows r)

latest_version-snoc_ne :
    (u : Uuid) (rows : Outbox) (r : OutboxRow)
    → r.aggregate_id ≢ u
    → latest_version u (rows ++ r ∷ []) ≡ latest_version u rows
unfolding latest_version
latest_version-snoc_ne u [] r other = ground arith
latest_version-snoc_ne u (x ∷ rows) r other = ground (arith, latest_version-snoc_ne u rows r)

-- A save that goes through moves the version of its own aggregate by one and that of no other.
pub latest_version-save :
    (e : OutboxEvent) (rows : Outbox)
    → any (has_id e.id) rows ≡ false
    → (latest_version e.aggregate_id (save e rows).1 ≡ latest_version e.aggregate_id rows + 1)
      × ((u : Uuid) → e.aggregate_id ≢ u → latest_version u (save e rows).1 ≡ latest_version u rows)
latest_version-save e rows fresh =
    let new = new_row e (latest_version e.aggregate_id rows + 1) in
    let after = ap (λ (x : Result (Unit {0}) × Outbox). x.1) (save_appends e rows fresh) in
    (
      ap (latest_version e.aggregate_id) after
          ∙ latest_version-snoc e.aggregate_id rows new refl
          ∙ omega arith,
      λ u other. ap (latest_version u) after ∙ latest_version-snoc_ne u rows new other,
    )

is_unpublished_after :
    (u : Uuid) (now : Time) (rows : Outbox)
    → any (unpublished u) (update_rows (unpublished u) (publish now) rows) ≡ false
unfolding update_rows
is_unpublished_after u now [] = refl
is_unpublished_after u now (r ∷ rows) = ground (arith, is_unpublished_after u now rows)

any-has_id-update_rows :
    (u w : Uuid) (now : Time) (test : OutboxRow → Bool) (rows : Outbox)
    → any (has_id w) (update_rows test (publish now) rows) ≡ any (has_id w) rows
unfolding update_rows
any-has_id-update_rows u w now test [] = refl
any-has_id-update_rows u w now test (r ∷ rows) =
    ground (arith, any-has_id-update_rows u w now test rows)

any-weaken :
    (u : Uuid) (rows : Outbox) → any (unpublished u) rows ≡ true → any (has_id u) rows ≡ true
any-weaken u [] h = cc
any-weaken u (r ∷ rows) h = ground (arith, any-weaken u rows)

-- Marking an event as published goes through exactly when the table has it; a second time, it
-- changes nothing and still goes through.
pub mark_as_published_twice :
    (u : Uuid) (now later : Time) (rows : Outbox)
    → any (has_id u) rows ≡ true
    → let (res, rows') = mark_as_published u now rows in
      (res ≡ ok tt) × (mark_as_published u later rows' ≡ (ok tt, rows'))
unfolding mark_as_published
mark_as_published_twice u now later rows here = elim (Bool-cases (any (unpublished u) rows)) [
  | inl first ↦ rw first (
    refl,
    rw (is_unpublished_after u now rows, any-has_id-update_rows u u now (unpublished u) rows, here),
  )
  | inr repeated ↦ rw (repeated, here) (refl, rw (repeated, here))
]
