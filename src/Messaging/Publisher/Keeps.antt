-- ===== src/Messaging/Publisher/Keeps.antt =====
-- Which predicates on the outbox a turn of the publisher keeps whatever the broker does
-- (src/messaging/kafka/outbox_publisher.py).
use microservice_payment_ser.Base.{
  ℕ, zero, suc, ◌+◌, List, [], ◌∷◌, arith, Option, none, some, inl, inr, subst, sym, ap,
}
use microservice_payment_ser.Base.Text.{Text}
use microservice_payment_ser.Base.Json.{Codec}
use microservice_payment_ser.Errors.{Uuid, Time, Result, ok, err, Result-cases}
use microservice_payment_ser.Action.{Action, ◌>>◌, >>-ok, >>-err}
use microservice_payment_ser.Outbox.{
  OutboxRow, Outbox, has_id, update_rows, unpublished, publish, mark_as_published, mark_as_failed,
  get_unpublished_events,
}
use microservice_payment_ser.Messaging.Wire.{Wire, message_of}
use microservice_payment_ser.Messaging.Publisher.{
  Produced, queued, buffer_full, refused, Report, Producer, Station, kill, retire, settle,
  delivery_report, serve, flush, produce_again, produced_again, produced_first, queue_event,
  queue_events, publish_batch, publish_events, recreate, turn, turns, batch_size,
}

-- An action keeps a predicate, whether it raises or not.
abbrev pub Keeps : {S : Type 0} → (S → Type 0) → Action S (Unit {0}) → Type 0
Keeps {S} Q m = (s : S) → Q s → Q (m s).1

pub Keeps->> :
    {S : Type 0} (Q : S → Type 0) (m k : Action S (Unit {0}))
    → Keeps Q m
    → Keeps Q k
    → Keeps Q (m >> k)
Keeps->> {S} Q m k first rest s h = elim (Result-cases (m s).0) [
  | inl (tt, e) ↦
      subst (λ (x : Result (Unit {0}) × S). Q x.1)
        (sym (>>-ok m k s (m s).1 (ap (λ r. (r, (m s).1)) e))) (rest (m s).1 (first s h))
  | inr (x, e) ↦
      subst (λ (y : Result (Unit {0}) × S). Q y.1)
        (sym (>>-err m k s (m s).1 x (ap (λ r. (r, (m s).1)) e))) (first s h)
]

-- A predicate on tables that the three changes of a row keep.
pub record IsMarkable (Q : Outbox → Type 0) : Type 0 where
  pub at_publish :
      (u : Uuid) (now : Time) (rows : Outbox)
      → Q rows
      → Q (update_rows (unpublished u) (publish now) rows)
  pub at_failure :
      (u : Uuid) (error : Text) (rows : Outbox)
      → Q rows
      → Q (
          update_rows
            (has_id u)
            (λ r. record r { error_message = some error; retry_count = r.retry_count + 1 })
            rows)
  pub at_kill :
      (u : Uuid) (now : Time) (rows : Outbox) → Q rows → Q (update_rows (has_id u) (kill now) rows)

module _ (Q : Outbox → Type 0) (markable : IsMarkable Q) where
  Keeps-mark_as_published : (u : Uuid) (now : Time) → Keeps Q (mark_as_published u now)
  unfolding mark_as_published
  Keeps-mark_as_published u now rows h = ground (arith, markable.at_publish u now rows h)

  Keeps-mark_as_failed : (u : Uuid) (error : Text) → Keeps Q (mark_as_failed u error)
  unfolding mark_as_failed
  Keeps-mark_as_failed u error rows h = ground (arith, markable.at_failure u error rows h)

  Keeps-retire : (retries : ℕ) (u : Uuid) (now : Time) → Keeps Q (retire retries u now)
  unfolding retire
  Keeps-retire retries u now rows h = ground (arith, markable.at_kill u now rows h)

  Keeps-settle :
      (retries : ℕ) (u : Uuid) (now : Time) (error : Option Text)
      → Keeps Q (settle retries u now error)
  Keeps-settle retries u now none = Keeps-mark_as_published u now
  Keeps-settle retries u now (some error) =
      Keeps->> Q (mark_as_failed u error) (retire retries u now) (Keeps-mark_as_failed u error)
        (Keeps-retire retries u now)

  Keeps-serve : (retries : ℕ) (reports : List Report) → Keeps Q (serve retries reports)
  unfolding serve delivery_report
  Keeps-serve retries [] rows h = h
  Keeps-serve retries (r ∷ reports) rows h =
      Keeps->> Q (delivery_report retries r) (serve retries reports)
        (Keeps-settle retries r.event_id r.now r.error) (Keeps-serve retries reports) rows h

  module _ {P : Type 0} (w : Wire) (c : Codec) (k : Producer w.Bytes P) (retries : ℕ) where
    abbrev Holds : Station P → Type 0
    Holds s = Q s.table

    Keeps-flush : Keeps Holds (flush w c k retries)
    unfolding flush
    Keeps-flush s h = Keeps-serve retries (k.flush s.producer).0 s.table h

    Keeps-produced_again : (out : Produced) → Keeps Holds (produced_again w c k retries out)
    Keeps-produced_again queued s h = h
    Keeps-produced_again buffer_full s h = h
    Keeps-produced_again (refused error) s h = h

    Keeps-produce_again : (r : OutboxRow) → Keeps Holds (produce_again w c k retries r)
    unfolding produce_again
    Keeps-produce_again r s h =
        let out = k.produce r.id (message_of w c r) s.producer in
        Keeps-produced_again out.0 (record s { producer = out.1 }) h

    Keeps-produced_first :
        (r : OutboxRow) (out : Produced) → Keeps Holds (produced_first w c k retries r out)
    Keeps-produced_first r queued s h = h
    Keeps-produced_first r buffer_full s h =
        Keeps->> Holds (flush w c k retries) (produce_again w c k retries r) Keeps-flush
          (Keeps-produce_again r) s h
    Keeps-produced_first r (refused error) s h = Keeps-mark_as_failed r.id error s.table h

    Keeps-queue_event : (r : OutboxRow) → Keeps Holds (queue_event w c k retries r)
    unfolding queue_event
    Keeps-queue_event r s h =
        let out = k.produce r.id (message_of w c r) s.producer in
        Keeps-produced_first r out.0 (record s { producer = out.1 }) h

    Keeps-queue_events : (rows : List OutboxRow) → Keeps Holds (queue_events w c k retries rows)
    unfolding queue_events
    Keeps-queue_events [] s h = h
    Keeps-queue_events (r ∷ rows) s h =
        Keeps->> Holds (queue_event w c k retries r) (queue_events w c k retries rows)
          (Keeps-queue_event r) (Keeps-queue_events rows) s h

    Keeps-publish_batch : (rows : List OutboxRow) → Keeps Holds (publish_batch w c k retries rows)
    Keeps-publish_batch [] s h = h
    Keeps-publish_batch (r ∷ rows) s h =
        Keeps->> Holds (queue_events w c k retries (r ∷ rows)) (flush w c k retries)
          (Keeps-queue_events (r ∷ rows)) Keeps-flush s h

    Holds-recreate :
        (x : Result (Unit {0}) × Station P) → Holds x.1 → Holds (recreate w c k retries x)
    Holds-recreate (ok tt, s) h = h
    Holds-recreate (err e, s) h = h

    Holds-turn : (s : Station P) → Holds s → Holds (turn w c k retries s)
    unfolding turn publish_events
    Holds-turn s h =
        Holds-recreate (publish_events w c k retries s)
          (Keeps-publish_batch (get_unpublished_events batch_size s.table) s h)

    pub Holds-turns : (n : ℕ) (s : Station P) → Holds s → Holds (turns w c k retries n s)
    unfolding turns
    Holds-turns zero s h = h
    Holds-turns (suc n) s h = Holds-turns n (turn w c k retries s) (Holds-turn s h)
