-- ===== src/Repository/Stale.antt =====
-- Two copies of one payment, both changed
-- (src/infrastructure/repos/payment/payment_command_repo.py).
use microservice_payment_ser.Base.{
  ℕ, suc, ◌+◌, ◌-◌, ◌≡◌, true, false, List, [], ◌∷◌, any, any-middle, ==_refl, length, arith, ap,
  sym, subst, ◌∙◌,
}
use microservice_payment_ser.Base.Json.{Codec}
use microservice_payment_ser.Errors.{Result, ok, err}
use microservice_payment_ser.Payment.Events.{PaymentEvent}
use microservice_payment_ser.Payment.Aggregate.{PaymentAggregate}
use microservice_payment_ser.EventStore.{Database, Setting, append}
use microservice_payment_ser.EventStore.Append.{IsFresh, rows_for}
use microservice_payment_ser.Action.{pure}
use microservice_payment_ser.Repository.{save, save_popped, save_target}
use microservice_payment_ser.Errors.{optimistic_concurrency}
use microservice_payment_ser.EventStore.{at_version, stored_row}
use microservice_payment_ser.EventStore.Append.{append_conflict}
use microservice_payment_ser.Action.{>>-err}
use microservice_payment_ser.Repository.Reload.{save_fresh, saved}

save_conflict :
    (c : Codec) (s : Setting) (a : PaymentAggregate) (e : PaymentEvent) (es : List PaymentEvent)
    (db : Database)
    → a.uncommitted_events ≡ e ∷ es
    → any (at_version a.payment_id (a.version - length a.uncommitted_events + 1)) db.events ≡ true
    → let v = a.version - length a.uncommitted_events in
      save c s a db ≡ (err (optimistic_concurrency a.payment_id v (v + 1)), db)
unfolding save save_popped
save_conflict c s a e es db has taken =
    let t = save_target a e in
    let popped = record a { uncommitted_events = [] } in
    ap (λ (x : List PaymentEvent). save_popped c s a x popped db) has
    ∙ >>-err (append c s t (e ∷ es))
        (pure (record popped { version = t.expected_version + suc (length es) })) db db
        (optimistic_concurrency t.aggregate_id t.expected_version (t.expected_version + 1))
        (append_conflict c s t e es db taken)

-- Two copies of one payment at version `v`, each with at least one event to save. When the first
-- has been saved, under new ids and outside of debug mode, the save of the second, under whatever
-- ids and in either mode, raises `OptimisticConcurrencyError` and changes no table.
pub second_save_refused :
    (c : Codec) (s s' : Setting) (v : ℕ) (a b : PaymentAggregate) (e f : PaymentEvent)
    (es fs : List PaymentEvent) (db : Database)
    → s.debug ≡ false
    → a.uncommitted_events ≡ e ∷ es
    → b.uncommitted_events ≡ f ∷ fs
    → a.version ≡ v + length a.uncommitted_events
    → b.version ≡ v + length b.uncommitted_events
    → b.payment_id ≡ a.payment_id
    → IsFresh s (save_target a e) v db
    → let (res, db') = save c s a db in
      (res ≡ ok (record a { uncommitted_events = [] }))
      × (save c s' b db' ≡ (err (optimistic_concurrency b.payment_id v (v + 1)), db'))
second_save_refused c s s' v a b e f es fs db production has has' at_v at_v' same fresh =
    let t = save_target a e in
    let expected : v ≡ a.version - length a.uncommitted_events = omega (arith, at_v) in
    let expected' : b.version - length b.uncommitted_events ≡ v = omega (arith, at_v') in
    let goes =
      save_fresh c s a e es db production has (subst (λ (n : ℕ). IsFresh s t n db) expected fresh)
        (omega (arith, at_v)) in
    let w = b.version - length b.uncommitted_events in
    let mine : at_version b.payment_id (w + 1) (stored_row c s t e (t.expected_version + 1))
        ≡ true =
      ground (arith, ==_refl a.payment_id) in
    let taken =
      any-middle (at_version b.payment_id (w + 1)) db.events
        (rows_for c s t es (t.expected_version + 1)) (stored_row c s t e (t.expected_version + 1))
        mine in
    let refused = save_conflict c s' b f fs (saved c s a e es db) has' taken in
    let Outcome = Result PaymentAggregate × Database in
    (
      ap (λ (x : Outcome). x.0) goes,
      subst
          (λ (n : ℕ).
            save c s' b (save c s a db).1
            ≡ (err (optimistic_concurrency b.payment_id n (n + 1)), (save c s a db).1))
          expected'
          (subst
            (λ (x : Outcome).
              save c s' b x.1 ≡ (err (optimistic_concurrency b.payment_id w (w + 1)), x.1))
            (sym goes) refused),
    )
