-- ===== src/Payment/Aggregate/Sourcing.antt =====
-- Event sourcing (src/domain/apps/payment/aggregate.py): the events that a life records against its
-- end.
use microservice_payment_ser.Base.{
  ◌+◌, ◌≡◌, refl, List, [], ◌∷◌, ◌++◌, length, append-nil, append_assoc, arith, ◌∙◌, ap,
}
use microservice_payment_ser.Errors.{ok}
use microservice_payment_ser.Payment.Events.{PaymentEvent, payment_created}
use microservice_payment_ser.Payment.Aggregate.{PaymentAggregate, Env, Command, run, apply, when}
use microservice_payment_ser.Payment.Aggregate.Lifecycle.{event_of, execute-apply}
use microservice_payment_ser.Payment.Aggregate.Traces.{run-cons}

-- The events handled in order, as `load` does.
unfoldable pub replay : List PaymentEvent → PaymentAggregate → PaymentAggregate
replay [] a = a
replay (e ∷ es) a = replay es (when e a)

-- A payment without what only the running object keeps.
abbrev pub bare : PaymentAggregate → PaymentAggregate
bare a = record a { version = 0; uncommitted_events = [] }

bare-apply : (e : PaymentEvent) (a : PaymentAggregate) → bare (apply e a) ≡ when e (bare a)
unfolding apply
bare-apply (payment_created h f) a = refl
bare-apply _ a = refl

apply-uncommitted_events :
    (e : PaymentEvent) (a : PaymentAggregate)
    → (apply e a).uncommitted_events ≡ a.uncommitted_events ++ e ∷ []
unfolding apply
apply-uncommitted_events e a = refl

apply-version : (e : PaymentEvent) (a : PaymentAggregate) → (apply e a).version ≡ a.version + 1
unfolding apply
apply-version e a = refl

-- Any life records events that, handled again from its start, rebuild its end; its version counts
-- them.
pub run-replay :
    (cs : List (Command × Env)) (a d : PaymentAggregate)
    → run cs a ≡ ok d
    → (es : List PaymentEvent) × (d.uncommitted_events ≡ a.uncommitted_events ++ es)
      × (d.version ≡ a.version + length es)
      × (bare d ≡ replay es (bare a))
unfolding run replay
run-replay [] a d h =
    ([], ground (arith, append-nil a.uncommitted_events), ground arith, ground arith)
run-replay ((c, env) ∷ rest) a d h =
    let (b, e, more) = run-cons c env rest a d h in
    let (es, recorded, counted, rebuilt) = run-replay rest b d more in
    let ev = event_of c env a in
    let same = execute-apply c env a b e in
    (
      ev ∷ es,
      recorded
          ∙ ap (λ (x : PaymentAggregate). x.uncommitted_events ++ es) same
          ∙ rw (apply-uncommitted_events, append_assoc),
      counted
          ∙ ap (λ (x : PaymentAggregate). x.version + length es) same
          ∙ rw apply-version (omega arith),
      rebuilt
          ∙ ap (λ (x : PaymentAggregate). replay es (bare x)) same
          ∙ ap (replay es) (bare-apply ev a),
    )

-- Handling two lists of events in turn.
pub replay-append :
    (ds es : List PaymentEvent) (a : PaymentAggregate)
    → replay (ds ++ es) a ≡ replay es (replay ds a)
unfolding replay
replay-append [] es a = refl
replay-append (d ∷ ds) es a = replay-append ds es (when d a)
