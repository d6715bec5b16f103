-- ===== src/Messaging/Publisher/Reports.antt =====
-- Events that the broker has not confirmed (src/messaging/kafka/outbox_publisher.py).
use microservice_payment_ser.Base.{
  ℕ, zero, suc, ◌+◌, ◌==◌, ◌&&◌, ◌≡◌, refl, Bool, false, true, List, [], ◌∷◌, any, arith, ◌∙◌, none,
  some, Option, count_by,
}
use microservice_payment_ser.Base.Text.{Text}
use microservice_payment_ser.Base.Json.{Codec}
use microservice_payment_ser.Errors.{Uuid, Time, Result, ok, err}
use microservice_payment_ser.Outbox.{
  OutboxRow, Outbox, has_id, is_none, update_rows, unpublished, publish, is_unprocessed,
  mark_as_published, mark_as_failed, get_unpublished_events,
}
use microservice_payment_ser.Messaging.Wire.{Wire, Message, message_of}
use microservice_payment_ser.Messaging.Publisher.{
  Report, refused, Producer, Station, kill, retire, settle, delivery_report, serve, flush,
  queue_event, queue_events, publish_batch, publish_events, recreate, turn, turns, batch_size,
}
use microservice_payment_ser.Messaging.Publisher.Keeps.{Keeps, Keeps->>}

-- The row of the event is not published.
abbrev IsOpen : Uuid → Outbox → Type 0
IsOpen u rows = any (unpublished u) rows ≡ true

abbrev pub confirms : Uuid → Report → Bool
confirms u r = r.event_id == u && is_none r.error

IsOpen-other :
    (u v : Uuid) (now : Time) (rows : Outbox)
    → (v == u) ≡ false
    → IsOpen u rows
    → IsOpen u (update_rows (unpublished v) (publish now) rows)
unfolding update_rows
IsOpen-other u v now [] other h = h
IsOpen-other u v now (r ∷ rows) other h = ground (arith, IsOpen-other u v now rows other)

IsOpen-change :
    (u v : Uuid) (change : OutboxRow → OutboxRow) (rows : Outbox)
    → ((r : OutboxRow) → unpublished u (change r) ≡ unpublished u r)
    → IsOpen u rows
    → IsOpen u (update_rows (has_id v) change rows)
unfolding update_rows
IsOpen-change u v change [] keeps h = h
IsOpen-change u v change (r ∷ rows) keeps h =
    ground (arith, keeps r, IsOpen-change u v change rows keeps)

IsOpen-publish :
    (u v : Uuid) (now : Time) → (v == u) ≡ false → Keeps (IsOpen u) (mark_as_published v now)
unfolding mark_as_published
IsOpen-publish u v now other rows h = ground (arith, IsOpen-other u v now rows other h)

IsOpen-failure : (u v : Uuid) (error : Text) → Keeps (IsOpen u) (mark_as_failed v error)
unfolding mark_as_failed
IsOpen-failure u v error rows h = ground (
  arith,
  IsOpen-change u v (λ r. record r { error_message = some error; retry_count = r.retry_count + 1 })
      rows (λ r. refl) h,
)

IsOpen-retire : (retries : ℕ) (u v : Uuid) (now : Time) → Keeps (IsOpen u) (retire retries v now)
unfolding retire
IsOpen-retire retries u v now rows h =
    ground (arith, IsOpen-change u v (kill now) rows (λ r. refl) h)

IsOpen-settle :
    (retries : ℕ) (u v : Uuid) (now : Time) (error : Option Text)
    → (v == u && is_none error) ≡ false
    → Keeps (IsOpen u) (settle retries v now error)
IsOpen-settle retries u v now none other = IsOpen-publish u v now (ground (arith, other))
IsOpen-settle retries u v now (some error) other =
    Keeps->> (IsOpen u) (mark_as_failed v error) (retire retries v now) (IsOpen-failure u v error)
      (IsOpen-retire retries u v now)

-- An event that no delivery report confirms stays unpublished, whatever the reports say of it and
-- of others, and whether or not one of them raises.
pub unconfirmed_stays_open :
    (retries : ℕ) (u : Uuid) (reports : List Report) (rows : Outbox)
    → any (confirms u) reports ≡ false
    → any (unpublished u) rows ≡ true
    → any (unpublished u) (serve retries reports rows).1 ≡ true
unfolding serve delivery_report
unconfirmed_stays_open retries u [] rows silent h = h
unconfirmed_stays_open retries u (r ∷ reports) rows silent h =
    Keeps->> (IsOpen u) (delivery_report retries r) (serve retries reports)
      (IsOpen-settle retries u r.event_id r.now r.error (ground (arith, silent)))
      (λ x. unconfirmed_stays_open retries u reports x (ground (arith, silent))) rows h

count_by-failure :
    (u : Uuid) (error : Text) (rows : Outbox)
    → count_by is_unprocessed (
        update_rows
          (has_id u)
          (λ r. record r { error_message = some error; retry_count = r.retry_count + 1 })
          rows)
      ≡ count_by is_unprocessed rows
unfolding update_rows
count_by-failure u error [] = refl
count_by-failure u error (r ∷ rows) = ground (arith, count_by-failure u error rows)

module _ {P : Type 0} (w : Wire) (c : Codec) (k : Producer w.Bytes P) (retries : ℕ)
    (refuses : (u : Uuid) (m : Message w.Bytes) (p : P)
      → (error : Text) × ((k.produce u m p).0 ≡ refused error))
    (silent : (p : P) → (k.flush p).0 ≡ []) where
  abbrev HasBacklog : ℕ → Station P → Type 0
  HasBacklog b s = count_by is_unprocessed s.table ≡ b

  HasBacklog-queue_event :
      (b : ℕ) (r : OutboxRow) → Keeps (HasBacklog b) (queue_event w c k retries r)
  unfolding queue_event mark_as_failed
  HasBacklog-queue_event b r s h =
      let (error, e) = refuses r.id (message_of w c r) s.producer in
      rw e (ground (arith, h, count_by-failure r.id error s.table))

  HasBacklog-flush : (b : ℕ) → Keeps (HasBacklog b) (flush w c k retries)
  unfolding flush serve
  HasBacklog-flush b s h = rw (silent s.producer) h

  HasBacklog-queue_events :
      (b : ℕ) (rows : List OutboxRow) → Keeps (HasBacklog b) (queue_events w c k retries rows)
  unfolding queue_events
  HasBacklog-queue_events b [] s h = h
  HasBacklog-queue_events b (r ∷ rows) s h =
      Keeps->> (HasBacklog b) (queue_event w c k retries r) (queue_events w c k retries rows)
        (HasBacklog-queue_event b r) (HasBacklog-queue_events b rows) s h

  HasBacklog-publish_batch :
      (b : ℕ) (rows : List OutboxRow) → Keeps (HasBacklog b) (publish_batch w c k retries rows)
  HasBacklog-publish_batch b [] s h = h
  HasBacklog-publish_batch b (r ∷ rows) s h =
      Keeps->> (HasBacklog b) (queue_events w c k retries (r ∷ rows)) (flush w c k retries)
        (HasBacklog-queue_events b (r ∷ rows)) (HasBacklog-flush b) s h

  HasBacklog-recreate :
      (b : ℕ) (x : Result (Unit {0}) × Station P)
      → HasBacklog b x.1
      → HasBacklog b (recreate w c k retries x)
  HasBacklog-recreate b (ok tt, s) h = h
  HasBacklog-recreate b (err e, s) h = h

  -- When `produce` refuses every message with an exception other than `BufferError`, no number of
  -- turns takes an event out of the backlog, whatever the limit of retries.
  pub refused_for_ever :
      (n : ℕ) (s : Station P)
      → count_by is_unprocessed (turns w c k retries n s).table ≡ count_by is_unprocessed s.table
  unfolding turns turn publish_events
  refused_for_ever zero s = refl
  refused_for_ever (suc n) s =
      refused_for_ever n (turn w c k retries s)
      ∙ HasBacklog-recreate (count_by is_unprocessed s.table) (publish_events w c k retries s) (
          HasBacklog-publish_batch (count_by is_unprocessed s.table)
            (get_unpublished_events batch_size s.table) s refl)
