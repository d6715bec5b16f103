-- ===== src/Messaging/Bus/Laws.antt =====
-- What a subscription changes (src/messaging/event_bus.py).
use microservice_payment_ser.Base.{
  ◌≡◌, refl, Bool, List, [], ◌∷◌, ◌++◌, arith, ◌∙◌, ap, sym, subst, Bool-cases, inl, inr,
  if◌then◌else◌,
}
use microservice_payment_ser.Payment.Events.{PaymentEvent}
use microservice_payment_ser.Payment.Events.Registry.{EventType}
use microservice_payment_ser.Payment.Events.Serial.{type_of_event}
use microservice_payment_ser.Messaging.Bus.{
  Bus, Handler, same_type, subscribe, handlers_for, run_handlers, publish_event,
}

module _ {W : Type 0} where
  handlers_for-subscribe :
      (t u : EventType) (h : Handler W) (bus : Bus W)
      → handlers_for t (subscribe u h bus)
        ≡ (if same_type u t then handlers_for t bus ++ h ∷ [] else handlers_for t bus)
  unfolding handlers_for subscribe
  handlers_for-subscribe t u h [] = ground arith
  handlers_for-subscribe t u h (x ∷ bus) = ground (arith, handlers_for-subscribe t u h bus)

  run_handlers-snoc :
      (hs : List (Handler W)) (h : Handler W) (e : PaymentEvent) (s : W)
      → run_handlers (hs ++ h ∷ []) e s ≡ (h e (run_handlers hs e s)).1
  unfolding run_handlers
  run_handlers-snoc [] h e s = refl
  run_handlers-snoc (g ∷ hs) h e s = run_handlers-snoc hs h e (g e s).1

  abbrev chosen : EventType → EventType → Handler W → Bus W → Bool → List (Handler W)
  chosen t u h bus same = if same then handlers_for u bus ++ h ∷ [] else handlers_for u bus

  -- After a subscription, publishing an event of that class first does all that it did before and
  -- then runs the new handler, even if handlers before it raise; publishing an event of another
  -- class does what it did before.
  pub publish_event-subscribe :
      (t : EventType) (h : Handler W) (bus : Bus W) (e : PaymentEvent) (s : W)
      → publish_event (subscribe t h bus) e s ≡ (
          if same_type t (type_of_event e)
          then (h e (publish_event bus e s)).1
          else publish_event bus e s)
  unfolding publish_event
  publish_event-subscribe t h bus e s =
      let u = type_of_event e in
      elim (Bool-cases (same_type t u)) [
        | inl same ↦ rw same (
            subst (λ hs. run_handlers hs e s ≡ (h e (run_handlers (handlers_for u bus) e s)).1)
              (sym (handlers_for-subscribe u t h bus ∙ ap (chosen t u h bus) same))
              (run_handlers-snoc (handlers_for u bus) h e s))
        | inr other ↦ rw other (
            ap (λ hs. run_handlers hs e s)
              (handlers_for-subscribe u t h bus ∙ ap (chosen t u h bus) other))
      ]
