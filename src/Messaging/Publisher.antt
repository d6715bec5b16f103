-- ===== src/Messaging/Publisher.antt =====
-- `OutboxKafkaPublisher` of src/messaging/kafka/outbox_publisher.py: the events of the outbox go to
-- Kafka, and the delivery reports back into the outbox. The producer of confluent_kafka is a
-- parameter.
use microservice_payment_ser.Base.{
  ℕ, zero, suc, Option, none, some, List, [], ◌∷◌, leb, if◌then◌else◌, Bool, true, false,
}
use microservice_payment_ser.Base.Text.{Text}
use microservice_payment_ser.Base.Json.{Codec}
use microservice_payment_ser.Errors.{
  Uuid, Time, Error, Result, ok, err, buffer_error, kafka_exception,
}
use microservice_payment_ser.Action.{Action, pure, ◌>>◌}
use microservice_payment_ser.Outbox.{
  OutboxRow, Outbox, has_id, update_rows, get_unpublished_events, mark_as_published, mark_as_failed,
}
use microservice_payment_ser.Messaging.Wire.{Wire, Message, message_of}
pub mod Marks
pub mod Retries
pub mod Drain
pub mod Rounds
pub mod Keeps
pub mod Safety
pub mod Reports

-- How a call of `produce` ends: it returns, or raises `BufferError` or another exception.
pub data Produced : Type 0 where
  queued buffer_full : Produced
  refused : Text → Produced

-- A call of the delivery callback, with the event that the callback was made for and the time.
pub record Report : Type 0 where
  pub event_id : Uuid
  pub error : Option Text
  pub now : Time

-- A producer: `produce` takes a message and the event of its callback, `flush` calls the callbacks
-- of the messages that it has settled.
pub record Producer (Bytes P : Type 0) : Type 0 where
  pub create : P
  pub produce : Uuid → Message Bytes → P → Produced × P
  pub flush : P → List Report × P

-- The table and the producer.
pub record Station (P : Type 0) : Type 0 where
  pub table : Outbox
  pub producer : P

-- `EventOutbox.objects.get(id=u)`
unfoldable pub get_event : Uuid → Outbox → Option OutboxRow
get_event u [] = none
get_event u (r ∷ rows) = if has_id u r then some r else get_event u rows

abbrev pub kill : Time → OutboxRow → OutboxRow
kill now r = record r { processed_at = some now }

abbrev exhausted : ℕ → Option OutboxRow → Bool
exhausted retries none = false
exhausted retries (some r) = leb retries r.retry_count

-- The event is dead once it has failed `KAFKA_RETRIES` times.
unfoldable pub retire : ℕ → Uuid → Time → Action Outbox (Unit {0})
unfolding get_event update_rows
retire retries u now rows =
    if exhausted retries (get_event u rows)
    then (ok tt, update_rows (has_id u) (kill now) rows)
    else (ok tt, rows)

abbrev settle : ℕ → Uuid → Time → Option Text → Action Outbox (Unit {0})
settle retries u now (some error) = mark_as_failed u error >> retire retries u now
settle retries u now none = mark_as_published u now

-- `_delivery_report`
unfoldable pub delivery_report : ℕ → Report → Action Outbox (Unit {0})
unfolding retire mark_as_published mark_as_failed
delivery_report retries r = settle retries r.event_id r.now r.error

-- The callbacks of one flush; one that raises ends it.
unfoldable pub serve : ℕ → List Report → Action Outbox (Unit {0})
unfolding delivery_report
serve retries [] = pure tt
serve retries (r ∷ reports) = delivery_report retries r >> serve retries reports

abbrev pub batch_size : ℕ
batch_size = 20

module _ {P : Type 0} (w : Wire) (c : Codec) (k : Producer w.Bytes P) (retries : ℕ) where
  -- An action on the table alone.
  abbrev on_table : Action Outbox (Unit {0}) → Action (Station P) (Unit {0})
  on_table m s = let (res, rows) = m s.table in (res, record s { table = rows })

  -- `self.producer.flush`
  unfoldable pub flush : Action (Station P) (Unit {0})
  unfolding serve
  flush s =
      let (reports, p) = k.flush s.producer in
      on_table (serve retries reports) (record s { producer = p })

  abbrev produced_again : Produced → Action (Station P) (Unit {0})
  produced_again queued s = (ok tt, s)
  produced_again buffer_full s = (err buffer_error, s)
  produced_again (refused error) s = (err (kafka_exception error), s)

  -- The call of `produce` after a full buffer; what it raises is not caught.
  unfoldable pub produce_again : OutboxRow → Action (Station P) (Unit {0})
  unfolding message_of
  produce_again r s =
      let (out, p) = k.produce r.id (message_of w c r) s.producer in
      produced_again out (record s { producer = p })

  abbrev produced_first : OutboxRow → Produced → Action (Station P) (Unit {0})
  produced_first r queued s = (ok tt, s)
  produced_first r buffer_full s = (flush >> produce_again r) s
  produced_first r (refused error) s = on_table (mark_as_failed r.id error) s

  -- One turn of the loop of `publish_events`.
  unfoldable pub queue_event : OutboxRow → Action (Station P) (Unit {0})
  unfolding flush produce_again message_of mark_as_failed
  queue_event r s =
      let (out, p) = k.produce r.id (message_of w c r) s.producer in
      produced_first r out (record s { producer = p })

  unfoldable pub queue_events : List OutboxRow → Action (Station P) (Unit {0})
  unfolding queue_event
  queue_events [] = pure tt
  queue_events (r ∷ rows) = queue_event r >> queue_events rows

  abbrev publish_batch : List OutboxRow → Action (Station P) (Unit {0})
  publish_batch [] = pure tt
  publish_batch (r ∷ rows) = queue_events (r ∷ rows) >> flush

  -- `publish_events`
  unfoldable pub publish_events : Action (Station P) (Unit {0})
  unfolding queue_events flush get_unpublished_events
  publish_events s = publish_batch (get_unpublished_events batch_size s.table) s

  abbrev recreate : Result (Unit {0}) × Station P → Station P
  recreate (ok tt, s) = s
  recreate (err e, s) = record s { producer = k.create }

  -- One turn of the loop of `start`: whatever is raised, the loop goes on with a new producer.
  unfoldable pub turn : Station P → Station P
  unfolding publish_events
  turn s = recreate (publish_events s)

  -- So many turns of the loop, which never ends by itself.
  unfoldable pub turns : ℕ → Station P → Station P
  unfolding turn
  turns zero s = s
  turns (suc n) s = turns n (turn s)
