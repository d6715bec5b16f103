-- ===== src/Repository.antt =====
-- `PaymentEventSourcedRepository` of src/infrastructure/repos/payment/payment_command_repo.py.
use microservice_payment_ser.Base.{
  ℕ, ◌+◌, ◌-◌, Bool, ◌&&◌, Option, none, some, List, [], ◌∷◌, length, filter_by, ◌==◌,
}
use microservice_payment_ser.Base.Text.{Text, codes, text_eq}
use microservice_payment_ser.Base.Json.{Members, num, end, member, Codec}
use microservice_payment_ser.Errors
use microservice_payment_ser.Errors.{
  Uuid, Time, Error, Result, ok, err, payment_not_found, value_error,
}
use microservice_payment_ser.Action.{Action, pure, ◌>>=◌, ◌>>◌}
use microservice_payment_ser.Payment.Types.{pending, type_of, method_of}
use microservice_payment_ser.Payment.Events.{PaymentEvent, payment_created, head_of}
use microservice_payment_ser.Payment.Events.Serial.{event_from_dict}
use microservice_payment_ser.Payment.Aggregate.{PaymentAggregate, post_init, when, pop_events}
use microservice_payment_ser.EventStore.{StoredEvent, Database, Setting, Target, append}
use microservice_payment_ser.EventStore.Rows.{order_by_version}
pub mod Stream
pub mod Reload
pub mod Creation
pub mod Stale
pub mod Tests

-- `filter(aggregate_id=..., aggregate_type="Payment")`
abbrev pub is_payment_row : Uuid → StoredEvent → Bool
is_payment_row u r = r.aggregate_id == u && text_eq r.aggregate_type (codes "Payment")

abbrev pub stream : Uuid → List StoredEvent → List StoredEvent
stream u = filter_by (is_payment_row u)

-- What a load draws from `uuid4` and the clock.
pub record Source : Type 0 where
  pub fresh_id : Uuid
  pub now : Time

abbrev pub read_row : Codec → Source → StoredEvent → Result PaymentEvent
read_row c src r = event_from_dict c src.fresh_id src.now r.event_type r.event_payload

-- The aggregate that `load` builds from the first event, before it handles the others.
unfoldable pub from_first : Source → PaymentEvent → Result PaymentAggregate
unfolding post_init
from_first src (payment_created h f) = elim (type_of f.payment_type) [
  | none ↦ err (value_error "not a PaymentType")
  | some type ↦ elim (method_of f.payment_method) [
    | none ↦ err (value_error "not a PaymentMethod")
    | some method ↦ post_init (record {
      payment_id = h.payment_id;
      wallet_id = h.wallet_id;
      user_id = h.user_id;
      amount = f.amount;
      currency = f.currency;
      payment_type = type;
      payment_method = method;
      status = pending;
      reference_id = f.reference_id;
      description = f.description;
      created_at = src.now;
      updated_at = src.now;
      version = 0;
      uncommitted_events = [];
    })
  ]
]
from_first src _ = err (value_error "Expected PaymentCreatedEvent as first event")

-- The loop over the rows behind the first.
unfoldable pub handle_rows :
    Codec → Source → List StoredEvent → PaymentAggregate → Result PaymentAggregate
handle_rows c src [] a = ok a
handle_rows c src (r ∷ rows) a =
    Errors.◌>>=◌ (read_row c src r) (λ e. handle_rows c src rows (when e a))

abbrev pub last_version : StoredEvent → List StoredEvent → ℕ
last_version r [] = r.aggregate_version
last_version r (x ∷ rows) = last_version x rows

unfoldable pub load_rows : Codec → Source → Uuid → List StoredEvent → Result PaymentAggregate
load_rows c src u [] = err (payment_not_found u)
load_rows c src u (first ∷ rest) = Errors.◌>>=◌ (read_row c src first) (λ e.
    Errors.◌>>=◌ (from_first src e) (λ a.
      Errors.◌>>=◌ (handle_rows c src rest a)
        (λ b. ok (record b { version = last_version first rest }))))

-- `load`
unfoldable pub load : Codec → Source → Uuid → Database → Result PaymentAggregate
load c src u db = load_rows c src u (order_by_version [] (stream u db.events))

abbrev pub schema_metadata : PaymentEvent → Members
schema_metadata e = member "schema_version" (num (head_of e).schema_version) end

-- The arguments of `append` in `save`: the expected version is the one before the new events.
abbrev pub save_target : PaymentAggregate → PaymentEvent → Target
save_target a e = record {
  aggregate_id = a.payment_id;
  aggregate_type = codes "Payment";
  expected_version = a.version - length a.uncommitted_events;
  metadata = schema_metadata e;
}

-- The body of `save` for the events that it has popped, `a` being the object before that.
unfoldable pub save_popped :
    Codec
    → Setting
    → PaymentAggregate
    → List PaymentEvent
    → PaymentAggregate
    → Action Database PaymentAggregate
save_popped c s a [] popped = pure popped
save_popped c s a (e ∷ es) popped = do
  append c s (save_target a e) (e ∷ es)
  pure (record popped { version = (save_target a e).expected_version + length (e ∷ es) })

-- `save`: the object comes back without its events
unfoldable pub save : Codec → Setting → PaymentAggregate → Action Database PaymentAggregate
unfolding pop_events
save c s a = let (events, popped) = pop_events a in save_popped c s a events popped
