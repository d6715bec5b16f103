-- ===== src/Messaging/Bus.antt =====
-- `DomainEventBus` of src/messaging/event_bus.py. A class of events is its `EventType`; the handlers
-- act on a world of their own and may raise.
use microservice_payment_ser.Base.{ℕ, Bool, List, [], ◌∷◌, ◌++◌, map, ◌==◌, if◌then◌else◌}
use microservice_payment_ser.Action.{Action}
use microservice_payment_ser.Payment.Events.{PaymentEvent}
use microservice_payment_ser.Payment.Events.Registry.{
  EventType, created_type, processed_type, succeeded_type, failed_type, cancelled_type,
  refunded_type,
}
use microservice_payment_ser.Payment.Events.Serial.{type_of_event}
pub mod Laws

-- Classes are told apart by their place in the registry.
unfoldable pub place : EventType → ℕ
place created_type = 0
place processed_type = 1
place succeeded_type = 2
place failed_type = 3
place cancelled_type = 4
place refunded_type = 5

abbrev pub same_type : EventType → EventType → Bool
same_type t u = place t == place u

abbrev pub Handler : Type 0 → Type 0
Handler W = PaymentEvent → Action W (Unit {0})

-- `_handlers`: the classes in the order of their first subscription
abbrev pub Bus : Type 0 → Type 0
Bus W = List (EventType × List (Handler W))

module _ {W : Type 0} where
  -- `subscribe`
  unfoldable pub subscribe : EventType → Handler W → Bus W → Bus W
  subscribe t h [] = (t, h ∷ []) ∷ []
  subscribe t h (x ∷ bus) =
      if same_type x.0 t then (x.0, x.1 ++ h ∷ []) ∷ bus else x ∷ subscribe t h bus

  -- The handlers to call.
  unfoldable pub handlers_for : EventType → Bus W → List (Handler W)
  handlers_for t [] = []
  handlers_for t (x ∷ bus) = if same_type x.0 t then x.1 else handlers_for t bus

  -- The loop of `publish`: what a handler raises is logged, and the next one runs.
  unfoldable pub run_handlers : List (Handler W) → PaymentEvent → W → W
  run_handlers [] e s = s
  run_handlers (h ∷ hs) e s = run_handlers hs e (h e s).1

  -- `publish`
  unfoldable pub publish_event : Bus W → PaymentEvent → W → W
  unfolding handlers_for run_handlers
  publish_event bus e s = run_handlers (handlers_for (type_of_event e) bus) e s

  -- `clear_all_handlers`
  unfoldable pub clear_all_handlers : Bus W → Bus W
  clear_all_handlers bus = []

  -- `get_subscribed_events`
  unfoldable pub get_subscribed_events : Bus W → List EventType
  get_subscribed_events bus = map (λ (x : EventType × List (Handler W)). x.0) bus
