-- ===== src/Messaging/Publisher/Rounds.antt =====
-- The publisher empties the outbox when the broker takes every event
-- (src/messaging/kafka/outbox_publisher.py).
use microservice_payment_ser.Base.{
  ℕ, zero, suc, ◌+◌, ◌*◌, ◌≤◌, ◌≡◌, refl, false, List, [], ◌∷◌, ◌++◌, any, arith, map, ap, ◌∙◌, sym,
  count_by, append-nil, append_assoc,
}
use Prim.Native.Nat.{min}
use microservice_payment_ser.Base.Json.{Codec}
use microservice_payment_ser.Errors.{Uuid, Time, ok}
use microservice_payment_ser.Action.{◌>>◌, >>-ok}
use microservice_payment_ser.Outbox.{OutboxRow, is_unprocessed, get_unpublished_events}
use microservice_payment_ser.Messaging.Wire.{Wire, Message, message_of}
use microservice_payment_ser.Messaging.Publisher.{
  Producer, Station, queued, queue_event, queue_events, flush, publish_events, publish_batch,
  batch_size, turn, turns,
}
use microservice_payment_ser.Messaging.Publisher.Marks.{
  IsKnown, delivered, publish_all, serve-delivered,
}
use microservice_payment_ser.Messaging.Publisher.Drain.{
  half_published, ids, IsKnown-batch, known_in_table, publish_all-batch,
}

-- A broker that takes every message and delivers it by the next flush, which ends in time:
-- `pending` are the events whose callbacks are due.
pub record IsHealthy {Bytes P : Type 0} (k : Producer Bytes P) : Type 0 where
  pub pending : P → List Uuid
  pub clock : P → Time
  pub accepts :
      (u : Uuid) (m : Message Bytes) (p : P)
      → ((k.produce u m p).0 ≡ queued) × (pending (k.produce u m p).1 ≡ pending p ++ u ∷ [])
  pub delivers :
      (p : P)
      → ((k.flush p).0 ≡ map (delivered (clock p)) (pending p)) × (pending (k.flush p).1 ≡ [])

module _ {P : Type 0} (w : Wire) (c : Codec) (k : Producer w.Bytes P) (retries : ℕ)
    (healthy : IsHealthy k) where
  queue_event-healthy :
      (r : OutboxRow) (s : Station P)
      → queue_event w c k retries r s
        ≡ (ok tt, record s { producer = (k.produce r.id (message_of w c r) s.producer).1 })
  unfolding queue_event
  queue_event-healthy r s = rw ((healthy.accepts r.id (message_of w c r) s.producer).0)

  queue_events-healthy :
      (batch : List OutboxRow) (s : Station P)
      → (p : P) × (queue_events w c k retries batch s
          ≡ (ok tt, record { table = s.table; producer = p }))
        × (healthy.pending p ≡ healthy.pending s.producer ++ ids batch)
  unfolding queue_events
  queue_events-healthy [] s = (s.producer, refl, sym (append-nil (healthy.pending s.producer)))
  queue_events-healthy (r ∷ rows) s =
      let q = (k.produce r.id (message_of w c r) s.producer).1 in
      let due = (healthy.accepts r.id (message_of w c r) s.producer).1 in
      let rest = queue_events-healthy rows (record s { producer = q }) in
      (
        rest.0,
        >>-ok (queue_event w c k retries r) (queue_events w c k retries rows) s
              (record s { producer = q }) (queue_event-healthy r s)
            ∙ rest.1,
        rest.2
            ∙ ap (λ us. us ++ ids rows) due
            ∙ append_assoc (healthy.pending s.producer) (r.id ∷ []) (ids rows),
      )

  flush-healthy :
      (us : List Uuid) (s : Station P)
      → healthy.pending s.producer ≡ us
      → IsKnown s.table us
      → flush w c k retries s ≡ (
        ok tt,
        record {
          table = publish_all (healthy.clock s.producer) us s.table;
          producer = (k.flush s.producer).1;
        },
      )
  unfolding flush
  flush-healthy us s due known = rw (
    (healthy.delivers s.producer).0,
    due,
    serve-delivered retries (healthy.clock s.producer) us s.table known,
  )

  publish_batch-healthy :
      (r : OutboxRow) (rows : List OutboxRow) (s : Station P)
      → healthy.pending s.producer ≡ []
      → IsKnown s.table (ids (r ∷ rows))
      → (now : Time) × (p : P) × ((queue_events w c k retries (r ∷ rows) >> flush w c k retries) s
          ≡ (ok tt, record { table = publish_all now (ids (r ∷ rows)) s.table; producer = p }))
        × (healthy.pending p ≡ [])
  publish_batch-healthy r rows s idle known =
      let (q, done, due) = queue_events-healthy (r ∷ rows) s in
      (
        healthy.clock q,
        (k.flush q).1,
        >>-ok (queue_events w c k retries (r ∷ rows)) (flush w c k retries) s
              (record s { producer = q }) done
            ∙ flush-healthy (ids (r ∷ rows)) (record s { producer = q })
                (due ∙ ap (λ us. us ++ ids (r ∷ rows)) idle) known,
        (healthy.delivers q).1,
      )

  -- A batch goes through and is published.
  publish_events-healthy :
      (s : Station P)
      → healthy.pending s.producer ≡ []
      → (now : Time) × (p : P) × (publish_events w c k retries s ≡ (
        ok tt,
        record {
          table = publish_all now (ids (get_unpublished_events batch_size s.table)) s.table;
          producer = p;
        },
      ))
        × (healthy.pending p ≡ [])
  unfolding publish_events publish_all
  publish_events-healthy s idle =
      split (get_unpublished_events batch_size s.table)
        (IsKnown-batch batch_size s.table _ (known_in_table batch_size s.table))
    where
      split :
          (batch : List OutboxRow)
          → IsKnown s.table (ids batch)
          → (now : Time) × (p : P) × (publish_batch w c k retries batch s
              ≡ (ok tt, record { table = publish_all now (ids batch) s.table; producer = p }))
            × (healthy.pending p ≡ [])
      split [] known = (0, s.producer, refl, idle)
      split (r ∷ rows) known = publish_batch-healthy r rows s idle known

  -- The invariant of the loop.
  abbrev IsIdle : Station P → Type 0
  IsIdle s = (healthy.pending s.producer ≡ []) × (any half_published s.table ≡ false)

  abbrev backlog : Station P → ℕ
  backlog s = count_by is_unprocessed s.table

  turn-healthy :
      (s : Station P)
      → IsIdle s
      → IsIdle (turn w c k retries s)
        × (backlog (turn w c k retries s) + min batch_size (backlog s) ≤ backlog s)
  unfolding turn
  turn-healthy s (idle, whole) =
      let (now, p, done, settled) = publish_events-healthy s idle in
      rw done
        (let left = publish_all-batch batch_size now s.table whole in ((settled, left.0), left.1))

  -- When the broker takes every message and delivers it by the next flush, so many turns of the loop
  -- as there are batches of 20 in the backlog leave no event unprocessed, provided that no event was
  -- published without being processed and that no delivery was due before.
  pub turns_drain :
      (n : ℕ) (s : Station P)
      → healthy.pending s.producer ≡ []
      → any half_published s.table ≡ false
      → count_by is_unprocessed s.table ≤ n * batch_size
      → count_by is_unprocessed (turns w c k retries n s).table ≡ 0
  unfolding turns
  turns_drain zero s idle whole few = omega (arith, few)
  turns_drain (suc n) s idle whole few =
      let next = turn-healthy s (idle, whole) in
      turns_drain n (turn w c k retries s) next.0.0 next.0.1 (omega (arith, next.1, few))
