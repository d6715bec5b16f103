-- ===== src/Lib.antt =====
-- A payment micro-service: event-sourced payments, their read model, the outbox that publishes
-- their events, and idempotency keys for the requests that create payments.
--
-- A command enters through `PaymentCommandHandler` and `PaymentCommandService`, which load the
-- payment from the event store, call the aggregate and save its new events. A save appends to the
-- event store and to the outbox in one transaction, and in debug mode to the read model, which
-- nothing but the rebuild command writes otherwise. The publisher sends the rows of the outbox to
-- Kafka, and the consumer hands the messages to the dispatchers of the event bus. A request that
-- creates a payment first claims its idempotency key, and its outcome is stored with the key and
-- replayed.
--
-- Parts and files:
--  * Base, Errors, Action: numbers and tests on ℕ, texts as lists of code points, decimals as a
--    coefficient and a scale, JSON, the exceptions, code that changes a database and may raise.
--  * Payment/Types: the enumerations of src/domain/apps/payment/models.py.
--  * Payment/Events: src/domain/apps/payment/events.py and src/domain/shared/events.py; Fields has the
--    event classes, Registry the event types, Serial `to_dict` and `from_dict`.
--  * Payment/Aggregate: `PaymentAggregate` of src/domain/apps/payment/aggregate.py. A method is a
--    function from the object to the object it leaves or to the exception that it raises.
--  * Payment/Older: the class `Payment` of src/domain/apps/payment/models.py, which keeps no events.
--  * Outbox: src/infrastructure/repos/outbox/orm_repository.py, the table as the list of its rows.
--  * EventStore: src/infrastructure/repos/event_store_repo.py. `Database` has the tables that one
--    append writes.
--  * Projection: src/infrastructure/projectors/payment/projector.py; EventStore/Rebuild its reading of
--    stored rows and
--    src/infrastructure/apps/outbox/management/commands/rebuild_payment_projection.py.
--  * Repository: src/infrastructure/repos/payment/payment_command_repo.py. `Represents` says that the
--    tables hold a payment.
--  * Idempotency/Key: src/domain/idempotency/models.py. Idempotency/Store:
--    src/infrastructure/repos/idempontency/idempotence_command_repo.py. Idempotency/Service:
--    src/application/idempotency/services/idempotency_command_service.py and the handler over it.
--  * Commands: src/application/payment/services/payment_command_service.py, and the commands of
--    src/application/payment/handlers/payment_command_handlers.py on stored payments. Executor and
--    Handler: the idempotent executor and the creation commands of that file.
--  * Messaging/Publisher: src/messaging/kafka/outbox_publisher.py, a turn of whose loop is a function on
--    the table and the producer. Messaging/Consumer: src/messaging/kafka/consumer.py.
--    Messaging/Bus: src/messaging/event_bus.py. Messaging/Handlers: src/messaging/payment and
--    src/messaging/kafka/dispatchers. Messaging/Rabbit: src/messaging/rabbitMQ/consumer.py.
--    Messaging/Wire: the messages between them.
--  * Http: src/apis/payment/command_views.py; Requests has what all views read, Creation the views over
--    Handler, Transition those over Commands. Keys is src/apis/idempotency/command_views.py.
--    Entry is what a request passes before: payment_service/middleware/auth.py,
--    payment_service/auth/jwt_verifier.py and src/application/idempotency/middleware.py.
--  * Queries: Payments and its child modules are src/infrastructure/repos/payment/payment_query_repo.py,
--    the query service and handler of src/application/payment, and src/apis/payment/query_views.py. Keys
--    is src/infrastructure/repos/idempontency/idempotence_query_repo.py with the service over it.
--  * Samples and the modules named Tests: concrete inputs.
--
-- The query that fetches a view, the hash of a payload and the `str` of an exception are parameters
-- of Executor, Handler and Http/Creation; Queries/Payments/Fetch is the query that the program
-- uses.
--
-- Choices. A UUID and a timestamp (microseconds, UTC) are natural numbers. What the code draws from
-- `uuid4`, from the clock and from `settings.DEBUG` is an argument; an operation reads the clock
-- once. The row ids that one append draws are a function of the version; that they are new is a
-- hypothesis where it matters (`IsFresh`). `str`, `UUID`, `Decimal`, `isoformat` and
-- `fromisoformat` are the record `Codec` of Base/Json, with the round trips that Python documents.
-- `upper`, `strip` and `isupper` are those of ASCII texts. A table is a list of rows in order of
-- insertion; a transaction restores it when an exception leaves it. Transactions run one after
-- another; where the code lets go of a row lock between reading and writing, `claim_with` takes
-- what was read as an argument, and so says what an interleaving does. The producer of
-- confluent_kafka is the record `Producer`, on a state of its own; `json.dumps` and `json.loads` of
-- a message are the record `Wire`, and `str` of a JSON value and the timestamps of `JsonResponse`
-- the record `Printing`. `Outbox.save` has the source's three attempts. Nothing else needs fuel:
-- the loops run along lists.
--
-- Bounds. Versions are natural numbers, where the columns end at 2147483647. The count of the
-- failed deliveries of an event ends with its column, at 32767, and a key at 255 characters.
-- Decimals are finite: what `Decimal` makes of "NaN" and "Infinity" has no counterpart. The cache
-- of the consumers takes 300 entries, Django's default; what it drops then is a parameter. Rows
-- that are equal in the order of a query stand as in the table, where the database leaves it open;
-- a theorem that rests on that rules such rows out.
--
-- The client of the user service is a parameter of Queries, as are `int` and the details of a user
-- that a listing prints.
--
-- Not modelled: the connections to Kafka and RabbitMQ, the client of the user service, the query
-- views of idempotency keys, logging, the texts of exceptions.
pub mod Base
pub mod Errors
pub mod Payment
pub mod Action
pub mod Projection
pub mod Messaging
pub mod Outbox
pub mod EventStore
pub mod Repository
pub mod Idempotency
pub mod Commands
pub mod Executor
pub mod Handler
pub mod Http
pub mod Queries
pub mod Samples
