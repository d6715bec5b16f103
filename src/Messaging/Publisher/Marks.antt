-- ===== src/Messaging/Publisher/Marks.antt =====
-- What delivery reports do to the rows of the outbox (`_delivery_report` of
-- src/messaging/kafka/outbox_publisher.py).
use microservice_payment_ser.Base.{
  ℕ, ◌≡◌, refl, Bool, true, false, List, [], ◌∷◌, any, arith, Bool-cases, inl, inr, map, ◌∙◌, none,
}
use microservice_payment_ser.Errors.{Uuid, Time, ok}
use microservice_payment_ser.Action.{>>-ok}
use microservice_payment_ser.Outbox.{
  OutboxRow, Outbox, has_id, update_rows, unpublished, publish, mark_as_published,
}
use microservice_payment_ser.Messaging.Publisher.{Report, serve, delivery_report}

-- `test` changes nothing when it holds of no row.
pub update_rows-none :
    (test : OutboxRow → Bool) (change : OutboxRow → OutboxRow) (rows : Outbox)
    → any test rows ≡ false
    → update_rows test change rows ≡ rows
unfolding update_rows
update_rows-none test change [] h = refl
update_rows-none test change (r ∷ rows) h = ground (arith, update_rows-none test change rows)

-- An event of the table can be marked as published.
pub mark_as_published-known :
    (u : Uuid) (now : Time) (rows : Outbox)
    → any (has_id u) rows ≡ true
    → mark_as_published u now rows ≡ (ok tt, update_rows (unpublished u) (publish now) rows)
unfolding mark_as_published
mark_as_published-known u now rows known = elim (Bool-cases (any (unpublished u) rows)) [
  | inl e ↦ rw e
  | inr e ↦ rw (e, known, update_rows-none (unpublished u) (publish now) rows e)
]

pub any-has_id-publish :
    (u v : Uuid) (now : Time) (rows : Outbox)
    → any (has_id v) (update_rows (unpublished u) (publish now) rows) ≡ any (has_id v) rows
unfolding update_rows
any-has_id-publish u v now [] = refl
any-has_id-publish u v now (r ∷ rows) = ground (arith, any-has_id-publish u v now rows)

-- The events are in the table.
unfoldable pub IsKnown : Outbox → List Uuid → Type 0
IsKnown rows [] = Unit {0}
IsKnown rows (u ∷ us) = (any (has_id u) rows ≡ true) × IsKnown rows us

pub IsKnown-publish :
    (u : Uuid) (now : Time) (rows : Outbox) (us : List Uuid)
    → IsKnown rows us
    → IsKnown (update_rows (unpublished u) (publish now) rows) us
unfolding IsKnown
IsKnown-publish u now rows [] h = tt
IsKnown-publish u now rows (v ∷ us) h =
    (any-has_id-publish u v now rows ∙ h.0, IsKnown-publish u now rows us h.1)

abbrev pub delivered : Time → Uuid → Report
delivered now u = record { event_id = u; error = none; now = now }

-- Every event published at the time.
unfoldable pub publish_all : Time → List Uuid → Outbox → Outbox
publish_all now [] rows = rows
publish_all now (u ∷ us) rows = publish_all now us (update_rows (unpublished u) (publish now) rows)

pub serve-delivered :
    (retries : ℕ) (now : Time) (us : List Uuid) (rows : Outbox)
    → IsKnown rows us
    → serve retries (map (delivered now) us) rows ≡ (ok tt, publish_all now us rows)
unfolding serve delivery_report publish_all IsKnown
serve-delivered retries now [] rows h = refl
serve-delivered retries now (u ∷ us) rows h =
    let rows' = update_rows (unpublished u) (publish now) rows in
    >>-ok (mark_as_published u now) (serve retries (map (delivered now) us)) rows rows'
      (mark_as_published-known u now rows h.0)
    ∙ serve-delivered retries now us rows' (IsKnown-publish u now rows us h.1)
