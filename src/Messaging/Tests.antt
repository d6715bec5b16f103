-- ===== src/Messaging/Tests.antt =====
-- The messaging at concrete inputs: brokers that take or refuse every message, a table with one
-- event, messages that come again.
use microservice_payment_ser.Base.{
  take, ℕ, ◌+◌, ◌≡◌, refl, true, false, none, some, List, [], ◌∷◌, ◌++◌, map, any, arith, count_by,
}
use microservice_payment_ser.Base.Text.{Text, codes}
use microservice_payment_ser.Base.Json.{Json, object, end}
use microservice_payment_ser.Errors.{Uuid, Time, ok, runtime_error}
use microservice_payment_ser.Action.{raise}
use microservice_payment_ser.Outbox.{OutboxRow, Outbox, new_row, unpublished, is_unprocessed}
use microservice_payment_ser.EventStore.{outbox_event}
use microservice_payment_ser.Repository.{save_target}
use microservice_payment_ser.Repository.Tests.{creation}
use microservice_payment_ser.Payment.Tests.{created_deposit}
use microservice_payment_ser.Samples.{plain, ids_from}
use microservice_payment_ser.Messaging.Wire.{Wire, message_of}
use microservice_payment_ser.Messaging.Publisher.{
  queued, refused, Producer, Station, get_event, serve, turns,
}
use microservice_payment_ser.Messaging.Publisher.Marks.{delivered}
use microservice_payment_ser.Messaging.Publisher.Drain.{half_published}
use microservice_payment_ser.Messaging.Publisher.Rounds
use microservice_payment_ser.Messaging.Publisher.Rounds.{IsHealthy}
use microservice_payment_ser.Messaging.Publisher.Retries
use microservice_payment_ser.Messaging.Publisher.Retries.{failing}
use microservice_payment_ser.Messaging.Publisher.Safety
use microservice_payment_ser.Messaging.Publisher.Safety.{sealed}
use microservice_payment_ser.Messaging.Publisher.Reports
use microservice_payment_ser.Messaging.Handlers.{
  Log, configure_payment_event_bus, payment_event_handlers, dispatched_line,
}
use microservice_payment_ser.Messaging.Handlers.Delivery.{received_line}
use microservice_payment_ser.Messaging.Consumer.{
  Cache, Delivery, Consuming, Registry, receive, consume, cached, process_message,
}
use microservice_payment_ser.Messaging.Consumer.Distinct
use microservice_payment_ser.Messaging.Consumer.Distinct.{process_distinct}
use microservice_payment_ser.Messaging.Consumer.Failures
use microservice_payment_ser.Messaging.Consumer.EndToEnd
use microservice_payment_ser.Messaging.Rabbit
use microservice_payment_ser.Messaging.Rabbit.{
  Delivered, Channel, tag_of, consume_all, callback, basic_ack, basic_nack,
}

-- Bytes that are the JSON value itself.
abbrev open_wire : Wire
open_wire = record {
  Bytes = Json;
  dumps = object;
  loads = some;
  decode = λ b. [];
  loads-dumps = λ m. refl;
}

-- A broker that delivers at each flush what was produced before it.
abbrev good_broker : Producer Json (List Uuid)
good_broker = record {
  create = [];
  produce = λ u m p. (queued, p ++ u ∷ []);
  flush = λ p. (map (delivered 9) p, []);
}

abbrev good_broker-IsHealthy : IsHealthy good_broker
good_broker-IsHealthy = record {
  pending = λ p. p;
  clock = λ p. 9;
  accepts = λ u m p. (refl, refl);
  delivers = λ p. (refl, refl);
}

abbrev bad_broker : Producer Json (Unit {0})
bad_broker = record {
  create = tt;
  produce = λ u m p. (refused (codes "too large"), p);
  flush = λ p. ([], p);
}

abbrev row : OutboxRow
row =
    new_row (outbox_event plain (ids_from 100) (save_target created_deposit creation) creation 1) 1

abbrev table : Outbox
table = row ∷ []

abbrev at_start : {P : Type 0} → P → Station P
at_start p = record { table = table; producer = p }

turns_drain_example :
    count_by is_unprocessed (turns open_wire plain good_broker 5 1 (at_start [])).table ≡ 0
turns_drain_example =
    Rounds.turns_drain open_wire plain good_broker 5 good_broker-IsHealthy 1 (at_start []) refl refl
      (omega arith)

abbrev timeouts : List (Text × Time)
timeouts = (codes "timed out", 7) ∷ (codes "timed out", 8) ∷ []

failures_counted_example :
    (rows' : Outbox) × (serve 5 (map (failing 101) timeouts) table ≡ (ok tt, rows'))
    × (r' : OutboxRow) × (get_event 101 rows' ≡ some r')
    × (r'.retry_count ≡ 2)
    × (is_unprocessed r' ≡ true)
unfolding get_event
failures_counted_example = Retries.failures_counted 5 101 timeouts table row refl refl (omega arith)

turns_keep_example :
    let t = turns open_wire plain bad_broker 5 3 (at_start tt) in
    (map sealed t.table ≡ map sealed table) × (any half_published t.table ≡ false)
turns_keep_example = Safety.turns_keep open_wire plain bad_broker 5 3 (at_start tt) refl

unconfirmed_stays_open_example :
    any
      (unpublished 101)
      (serve 5 (failing 101 (codes "timed out", 7) ∷ delivered 8 102 ∷ []) table).1
    ≡ true
unconfirmed_stays_open_example =
    Reports.unconfirmed_stays_open 5 101 (failing 101 (codes "timed out", 7) ∷ delivered 8 102 ∷ [])
      table refl refl

refused_for_ever_example :
    count_by is_unprocessed (turns open_wire plain bad_broker 5 9 (at_start tt)).table ≡ 1
refused_for_ever_example =
    Reports.refused_for_ever open_wire plain bad_broker 5 (λ u m p. (codes "too large", refl))
      (λ p. refl) 9 (at_start tt)

-- Handlers that count, and handlers that always raise.
abbrev counting : Registry ℕ
counting name = some (λ payload n. (ok tt, n + 1))

abbrev raising : Registry ℕ
raising name = some (λ payload. raise (runtime_error "no connection"))

abbrev delivery : ℕ → Time → Delivery Json
delivery offset now = record {
  offset = offset;
  now = now;
  message = message_of open_wire plain row;
}

-- a cache that keeps its newest 200 entries
abbrev halved : Cache → Cache
halved = take 200

abbrev unread : Consuming ℕ
unread = record { cache = []; position = 0; world = 0 }

consume-process_distinct_example :
    (consume open_wire counting halved (delivery 0 5 ∷ delivery 0 6 ∷ []) unread).world
    ≡ process_distinct open_wire counting [] (delivery 0 5 ∷ delivery 0 6 ∷ []) 0
unfolding Distinct.IsWithin
consume-process_distinct_example =
    Distinct.consume-process_distinct open_wire counting halved 5 (delivery 0 5 ∷ delivery 0 6 ∷ [])
      unread refl (omega arith, omega arith, (omega arith, omega arith, tt)) (omega arith)

failed_then_skipped_example :
    let failed = receive open_wire raising halved (delivery 0 5) unread in
    (failed.position ≡ 0)
    × (failed.world ≡ 0)
    × (receive open_wire raising halved (delivery 0 6) failed ≡ record failed { position = 1 })
unfolding message_of cached process_message
failed_then_skipped_example =
    Failures.failed_then_skipped open_wire raising halved (delivery 0 5) unread
      (runtime_error "no connection") 0 6 refl refl refl (omega arith)

abbrev unlogged : Consuming Log
unlogged = record { cache = []; position = 0; world = [] }

receive-message_of_example :
    let registry = payment_event_handlers plain 3 5 (configure_payment_event_bus []) in
    let received =
      receive open_wire registry halved
        (record { offset = 4; now = 5; message = message_of open_wire plain row })
        unlogged in
    (received.position ≡ 5)
    × (received.world ≡ received_line creation ∷ dispatched_line creation ∷ [])
unfolding cached
receive-message_of_example =
    EndToEnd.receive-message_of open_wire plain 3 5 (ids_from 100)
      (save_target created_deposit creation) creation 1 halved 4 unlogged refl

abbrev mail : ℕ → Delivered Json
mail tag = record {
  delivery_tag = tag;
  message_id = some (codes "m1");
  headers = none;
  body = object end;
}

abbrev channel : Channel ℕ
channel = record { cache = []; answers = []; world = 0 }

consume_all-tags_example :
    map tag_of
      (consume_all open_wire raising halved ((5, mail 1) ∷ (6, mail 2) ∷ []) channel).answers
    ≡ 1 ∷ 2 ∷ []
consume_all-tags_example =
    Rabbit.consume_all-tags open_wire raising halved ((5, mail 1) ∷ (6, mail 2) ∷ []) channel
