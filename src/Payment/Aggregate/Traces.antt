-- ===== src/Payment/Aggregate/Traces.antt =====
-- What holds of every life of a payment: any commands, one after the other.
use microservice_payment_ser.Base.{
  ◌≡◌, refl, ◌⊎◌, ◌≢◌, inl, inr, Bool, true, false, none, some, List, [], ◌∷◌, any, any-snoc, arith,
  ◌∙◌, ap, sym,
}
use microservice_payment_ser.Errors.{ok, Result-cases}
use microservice_payment_ser.Payment.Types.{PaymentStatus, pending, succeeded, cancelled, refunded}
use microservice_payment_ser.Payment.Events.{PaymentEvent, payment_succeeded}
use microservice_payment_ser.Payment.Aggregate.{
  PaymentAggregate, Env, Command, process_command, succeed_command, cancel_command, fail_command,
  refund_command, execute, run, apply,
}
use microservice_payment_ser.Payment.Aggregate.Lifecycle.{
  next_status, status_after, event_of, execute-next_status, execute-apply, IsValid, execute-IsValid,
}

-- Splits a life at its first command.
pub run-cons :
    (c : Command) (env : Env) (rest : List (Command × Env)) (a d : PaymentAggregate)
    → run ((c, env) ∷ rest) a ≡ ok d
    → (b : PaymentAggregate) × (execute c env a ≡ ok b) × (run rest b ≡ ok d)
unfolding run
run-cons c env rest a d h = elim (Result-cases (execute c env a)) [
  | inl (b, e) ↦ (b, e, rw e at h)
  | inr (x, e) ↦ absurd (cc)
]

-- Every life keeps the invariant.
pub run-IsValid :
    (cs : List (Command × Env)) (a d : PaymentAggregate) → IsValid a → run cs a ≡ ok d → IsValid d
unfolding run
run-IsValid [] a d v h = ground arith
run-IsValid ((c, env) ∷ rest) a d v h =
    let (b, e, more) = run-cons c env rest a d h in
    run-IsValid rest b d (execute-IsValid c env a b v e) more

abbrev pub is_success : PaymentEvent → Bool
is_success (payment_succeeded h) = true
is_success _ = false

abbrev has_settled : PaymentStatus → Bool
has_settled succeeded = true
has_settled refunded = true
has_settled _ = false

-- A settled payment has recorded its success.
abbrev IsEarned : PaymentAggregate → Type 0
IsEarned a = has_settled a.status ≡ true → any is_success a.uncommitted_events ≡ true

apply-IsEarned :
    (c : Command) (env : Env) (a : PaymentAggregate)
    → next_status c a.status ≢ none
    → IsEarned a
    → IsEarned (apply (event_of c env a) a)
unfolding apply
apply-IsEarned process_command env a go h = ground arith
apply-IsEarned succeed_command env a go h =
    λ _. any-snoc is_success a.uncommitted_events (event_of succeed_command env a) (inr refl)
apply-IsEarned cancel_command env a go h = ground arith
apply-IsEarned (fail_command reason) env a go h = ground arith
apply-IsEarned (refund_command id) env a go h =
    let e = event_of (refund_command id) env a in
    ground (arith, any-snoc is_success a.uncommitted_events e)

run-IsEarned :
    (cs : List (Command × Env)) (a d : PaymentAggregate) → IsEarned a → run cs a ≡ ok d → IsEarned d
unfolding run
run-IsEarned [] a d h e = ground (arith)
run-IsEarned ((c, env) ∷ rest) a d h r =
    let (b, e, more) = run-cons c env rest a d r in
    run-IsEarned rest b d
      (rw (execute-apply c env a b e)
        (apply-IsEarned c env a (ground (arith, execute-next_status c env a)) h))
      more

-- A payment that was pending with no events, and that some commands have brought to refunded, has
-- recorded a success on the way.
pub refunded_needs_success :
    (cs : List (Command × Env)) (a d : PaymentAggregate)
    → a.status ≡ pending
    → run cs a ≡ ok d
    → d.status ≡ refunded
    → any is_success d.uncommitted_events ≡ true
refunded_needs_success cs a d p r f = run-IsEarned cs a d (λ s. ground arith) r (ground arith)

final_stops :
    (c : Command) (s t : PaymentStatus)
    → (s ≡ cancelled) ⊎ (s ≡ refunded)
    → some t ≡ next_status c s
    → ⊥
final_stops process_command s t h e = ground arith
final_stops succeed_command s t h e = ground arith
final_stops cancel_command s t h e = ground arith
final_stops (fail_command reason) s t h e = ground arith
final_stops (refund_command id) s t h e = ground arith

-- Once cancelled or refunded, a payment takes no further command.
pub finished_absorbs :
    (c : Command) (env : Env) (rest : List (Command × Env)) (a : PaymentAggregate)
    → (a.status ≡ cancelled) ⊎ (a.status ≡ refunded)
    → status_after (run ((c, env) ∷ rest) a) ≡ none
unfolding run
finished_absorbs c env rest a h = elim (Result-cases (execute c env a)) [
  | inl (b, e) ↦ absurd (stops b e)
  | inr (x, e) ↦ rw e
]
  where
    stops : (b : PaymentAggregate) → execute c env a ≡ ok b → ⊥
    stops b e =
        final_stops c a.status b.status h (ap status_after (sym e) ∙ execute-next_status c env a)
