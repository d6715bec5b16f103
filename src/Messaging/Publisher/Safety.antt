-- ===== src/Messaging/Publisher/Safety.antt =====
-- What holds of the outbox whatever the broker does (src/messaging/kafka/outbox_publisher.py).
use microservice_payment_ser.Base.{
  ℕ, ◌+◌, ◌≡◌, refl, false, Bool, Bool-cases, inl, inr, some, [], ◌∷◌, any, arith, ◌∙◌, none, map,
}
use microservice_payment_ser.Base.Text.{Text}
use microservice_payment_ser.Base.Json.{Codec}
use microservice_payment_ser.Errors.{Uuid, Time}
use microservice_payment_ser.Outbox.{OutboxRow, Outbox, has_id, update_rows, unpublished, publish}
use microservice_payment_ser.Messaging.Wire.{Wire}
use microservice_payment_ser.Messaging.Publisher.{Producer, Station, kill, turns}
use microservice_payment_ser.Messaging.Publisher.Drain.{half_published, half_published-publish}
use microservice_payment_ser.Messaging.Publisher.Keeps.{IsMarkable, Holds-turns}

-- A row without the marks of its publication.
abbrev pub sealed : OutboxRow → OutboxRow
sealed r = record r {
  published_at = none;
  processed_at = none;
  retry_count = 0;
  error_message = none;
}

sealed-update_rows :
    (test : OutboxRow → Bool) (change : OutboxRow → OutboxRow) (rows : Outbox)
    → ((r : OutboxRow) → sealed (change r) ≡ sealed r)
    → map sealed (update_rows test change rows) ≡ map sealed rows
unfolding update_rows
sealed-update_rows test change [] h = refl
sealed-update_rows test change (r ∷ rows) h = elim (Bool-cases (test r)) [
  | inl e ↦ rw (e, h r, sealed-update_rows test change rows h)
  | inr e ↦ rw (e, sealed-update_rows test change rows h)
]

sealed-IsMarkable : (rows : Outbox) → IsMarkable (λ x. map sealed x ≡ map sealed rows)
sealed-IsMarkable rows = record {
  at_publish = λ u now x h. sealed-update_rows (unpublished u) (publish now) x (λ r. refl) ∙ h;
  at_failure = λ u error x h. sealed-update_rows (has_id u) _ x (λ r. refl) ∙ h;
  at_kill = λ u now x h. sealed-update_rows (has_id u) (kill now) x (λ r. refl) ∙ h;
}

half_published-failure :
    (u : Uuid) (error : Text) (rows : Outbox)
    → any half_published rows ≡ false
    → any half_published (
        update_rows
          (has_id u)
          (λ r. record r { error_message = some error; retry_count = r.retry_count + 1 })
          rows)
      ≡ false
unfolding update_rows
half_published-failure u error [] h = refl
half_published-failure u error (r ∷ rows) h = ground (arith, half_published-failure u error rows)

half_published-kill :
    (u : Uuid) (now : Time) (rows : Outbox)
    → any half_published rows ≡ false
    → any half_published (update_rows (has_id u) (kill now) rows) ≡ false
unfolding update_rows
half_published-kill u now [] h = refl
half_published-kill u now (r ∷ rows) h = ground (arith, half_published-kill u now rows)

half_published-IsMarkable : IsMarkable (λ rows. any half_published rows ≡ false)
half_published-IsMarkable = record {
  at_publish = half_published-publish;
  at_failure = half_published-failure;
  at_kill = half_published-kill;
}

-- Whatever the broker does, the turns of the publisher keep the events of the outbox in order and,
-- the marks of their publication apart, as they are; and when no event was published without being
-- processed, none is afterwards.
pub turns_keep :
    {P : Type 0} (w : Wire) (c : Codec) (k : Producer w.Bytes P) (retries n : ℕ) (s : Station P)
    → any half_published s.table ≡ false
    → let t = turns w c k retries n s in
      (map sealed t.table ≡ map sealed s.table) × (any half_published t.table ≡ false)
turns_keep w c k retries n s whole = (
  Holds-turns (λ x. map sealed x ≡ map sealed s.table) (sealed-IsMarkable s.table) w c k retries n s
      refl,
  Holds-turns (λ rows. any half_published rows ≡ false) half_published-IsMarkable w c k retries n s
      whole,
)
