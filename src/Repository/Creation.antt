-- ===== src/Repository/Creation.antt =====
-- Saving a payment that a factory has just made
-- (src/infrastructure/repos/payment/payment_command_repo.py).
use microservice_payment_ser.Base.{
  ℕ, ◌-◌, ◌≡◌, refl, false, Option, [], ◌∷◌, ◌++◌, length, arith, ap, sym, subst,
}
use microservice_payment_ser.Base.Text.{Text, upper_idem}
use microservice_payment_ser.Base.Json.{Codec}
use microservice_payment_ser.Errors.{Result, ok}
use microservice_payment_ser.Payment.Types.{
  PaymentType, PaymentMethod, type_of-type_value, method_of-method_value,
}
use microservice_payment_ser.Payment.Events.{PaymentEvent}
use microservice_payment_ser.Payment.Aggregate.{
  PaymentAggregate, PaymentRequest, Env, create_payment,
}
use microservice_payment_ser.Payment.Aggregate.Sourcing.{replay}
use microservice_payment_ser.EventStore.{Database, Setting}
use microservice_payment_ser.EventStore.Append.{IsFresh, rows_for}
use microservice_payment_ser.Repository.{Source, stream, from_first, save, save_target}
use microservice_payment_ser.Repository.Stream.{Holds, Holds-appended}
use microservice_payment_ser.Payment.Aggregate.{created_event, created_fields, new_head}
use microservice_payment_ser.Repository.Reload.{Represents, timeless, save_fresh}

abbrev long_ago : Source
long_ago = record { fresh_id = 0; now = 0 }

create_payment-first :
    (env : Env) (q : PaymentRequest) (t : PaymentType) (m : PaymentMethod) (d : Option Text)
    (a : PaymentAggregate)
    → create_payment env q t m d ≡ ok a
    → (a.uncommitted_events ≡ created_event env a ∷ [])
      × (a.version ≡ 1)
      × (from_first long_ago (created_event env a) ≡ ok (timeless a))
unfolding create_payment from_first
create_payment-first env q t m d a h = (
  ground (arith),
  ground (arith),
  ground (arith, type_of-type_value t, method_of-method_value m, upper_idem q.currency),
)

module _ (c : Codec) (s : Setting) (production : s.debug ≡ false) where
  -- A payment that a factory has made, saved under new ids into tables that know nothing of it:
  -- the save goes through, and the tables then hold the payment.
  pub create-Represents :
      (env : Env) (q : PaymentRequest) (t : PaymentType) (m : PaymentMethod) (d : Option Text)
      (a : PaymentAggregate) (db : Database)
      → create_payment env q t m d ≡ ok a
      → stream a.payment_id db.events ≡ []
      → ((e : PaymentEvent) → IsFresh s (save_target a e) 0 db)
      → let (res, db') = save c s a db in
        (res ≡ ok (record a { uncommitted_events = [] }))
        × Represents c db' (record a { uncommitted_events = [] })
  create-Represents env q t m d a db goes unknown fresh =
      let (events, first_version, begins) = create_payment-first env q t m d a goes in
      let e = created_event env a in
      let expected : 0 ≡ a.version - length a.uncommitted_events =
        omega (arith, first_version, ap length events) in
      let commits =
        save_fresh c s a e [] db production events
          (subst (λ (n : ℕ). IsFresh s (save_target a e) n db) expected (fresh e))
          (omega (arith, first_version, ap length events)) in
      let holds =
        subst
          (λ (n : ℕ).
            Holds c 0 (stream a.payment_id (db.events ++ rows_for c s (save_target a e) (e ∷ []) n))
              (e ∷ []))
          expected
          (Holds-appended c s (save_target a e) db.events [] (e ∷ []) refl (rw unknown tt)) in
      (
        ap (λ (x : Result PaymentAggregate × Database). x.0) commits,
        subst
            (λ (x : Result PaymentAggregate × Database).
              Represents c x.1 (record a { uncommitted_events = [] }))
            (sym commits)
            (record {
              first_head = new_head env a;
              first_fields = created_fields a;
              later = [];
              begun_at = long_ago;
              start = timeless a;
              rows = holds;
              counted = first_version;
              begins = begins;
              rebuilt = unfold replay in refl;
            }),
      )
