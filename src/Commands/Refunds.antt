-- ===== src/Commands/Refunds.antt =====
-- The creation of a refund (src/application/payment/services/payment_command_service.py).
use microservice_payment_ser.Base.{inl, inr, ◌≡◌, sym, ap, subst, ◌∙◌, true, false, some, [], arith}
use microservice_payment_ser.Base.Text.{is_blank, codes}
use microservice_payment_ser.Base.Decimal.{Decimal, decimal_gt}
use microservice_payment_ser.Base.Json.{Codec}
use microservice_payment_ser.Errors.{
  Uuid, Error, Result, ok, err, Result-cases, refund_amount_exceeds_original,
}
use microservice_payment_ser.Payment.Types.{wallet, refund}
use microservice_payment_ser.Payment.Events.{PaymentEvent}
use microservice_payment_ser.Payment.Aggregate
use microservice_payment_ser.Payment.Aggregate.{PaymentAggregate, Env, or_text}
use microservice_payment_ser.Payment.Aggregate.Factories.{IsNew, create_refund-IsNew}
use microservice_payment_ser.EventStore.{Database, Setting}
use microservice_payment_ser.EventStore.Append.{IsFresh}
use microservice_payment_ser.Repository.{Source, stream, load, save, save_target}
use microservice_payment_ser.Repository.Reload.{Represents, load-Represents}
use microservice_payment_ser.Repository.Creation.{create-Represents}
use microservice_payment_ser.Commands.{
  CreateRequest, request_with, create_refund, refund_of, load_payment, save_aggregate,
}

module _ (c : Codec) (s : Setting) (src : Source) (env : Env) (q : CreateRequest)
    (original : Uuid) where
  -- How far a refund gets.
  refund-missing :
      (y : Error) (id : Uuid) (db : Database)
      → load c src original db ≡ err y
      → ¬ ((create_refund c s src env q original db).0 ≡ ok id)
  unfolding create_refund load_payment
  refund-missing y id db missing h = ground arith

  refund-rejected :
      (a : PaymentAggregate) (y : Error) (id : Uuid) (db : Database)
      → load c src original db ≡ ok a
      → refund_of env q original ≡ err y
      → ¬ ((create_refund c s src env q original db).0 ≡ ok id)
  unfolding create_refund load_payment
  refund-rejected a y id db loads stops h = ground arith

  refund-made :
      (a r : PaymentAggregate) (id : Uuid) (db : Database)
      → load c src original db ≡ ok a
      → refund_of env q original ≡ ok r
      → (create_refund c s src env q original db).0 ≡ ok id
      → (decimal_gt q.amount a.amount ≡ false)
        × (r.payment_id ≡ id)
        × ((create_refund c s src env q original db).1 ≡ (save c s r db).1)
  unfolding create_refund load_payment save_aggregate
  refund-made a r id db loads made h = ground arith

  -- A refund that is created is for a payment that can be loaded, and for at most the amount of
  -- that payment. What the factory makes of the request has the id that is returned, is new and of
  -- the amount that was asked for, which is positive, refers to the original and is paid by the
  -- wallet; and the tables are those that saving it leaves.
  pub refund_bounded :
      (id : Uuid) (db : Database)
      → (create_refund c s src env q original db).0 ≡ ok id
      → (a r : PaymentAggregate) × (load c src original db ≡ ok a)
        × (decimal_gt q.amount a.amount ≡ false)
        × (refund_of env q original ≡ ok r)
        × (r.payment_id ≡ id)
        × IsNew (request_with wallet q) refund r
        × (r.reference_id ≡ some original)
        × (r.payment_method ≡ wallet)
        × ((create_refund c s src env q original db).1 ≡ (save c s r db).1)
  refund_bounded id db h = elim (Result-cases (load c src original db)) [
    | inr (y, missing) ↦ absurd (refund-missing y id db missing h)
    | inl (a, loads) ↦ elim (Result-cases (refund_of env q original)) [
      | inr (y, stops) ↦ absurd (refund-rejected a y id db loads stops h)
      | inl (r, made) ↦
          let (new_one, by_wallet, refers) =
            create_refund-IsNew env (request_with wallet q) original r made in
          let (fits, mine, stored) = refund-made a r id db loads made h in
          (a, r, loads, fits, made, mine, new_one, refers, by_wallet, stored)
    ]
  ]

  refund-exceeds :
      (a : PaymentAggregate) (db : Database)
      → is_blank q.currency ≡ false
      → load c src original db ≡ ok a
      → decimal_gt q.amount a.amount ≡ true
      → create_refund c s src env q original db
        ≡ (err (refund_amount_exceeds_original original a.amount q.amount q.currency), db)
  unfolding create_refund load_payment
  refund-exceeds a db named loads exceeds = ground arith

  -- A refund of more than the amount of the stored payment is refused, with both amounts in the
  -- error, and no table changes.
  pub refund_too_large :
      (a : PaymentAggregate) (db : Database)
      → is_blank q.currency ≡ false
      → Represents c db a
      → a.payment_id ≡ original
      → decimal_gt q.amount a.amount ≡ true
      → create_refund c s src env q original db
        ≡ (err (refund_amount_exceeds_original original a.amount q.amount q.currency), db)
  refund_too_large a db named held same_id exceeds =
      let (b, loads, same, counts, clean) = load-Represents c db a src held in
      let amount = ap (λ (x : PaymentAggregate). x.amount) same in
      refund-exceeds b db named (subst (λ (u : Uuid). load c src u db ≡ ok b) same_id loads)
        (ap (decimal_gt q.amount) amount ∙ exceeds)
      ∙ ap
          (λ (d : Decimal).
            (err (refund_amount_exceeds_original original d q.amount q.currency), db))
          amount

  refund_of-create_payment :
      (r : PaymentAggregate)
      → refund_of env q original ≡ ok r
      → Aggregate.create_payment env
          (record (request_with wallet q) { reference_id = some original })
          refund
          wallet
          (some (or_text q.description (codes "Refund")))
        ≡ ok r
  unfolding Aggregate.create_refund
  refund_of-create_payment r made = ground arith

  refund-persists :
      (a r : PaymentAggregate) (db : Database)
      → is_blank q.currency ≡ false
      → load c src original db ≡ ok a
      → decimal_gt q.amount a.amount ≡ false
      → refund_of env q original ≡ ok r
      → (save c s r db).0 ≡ ok (record r { uncommitted_events = [] })
      → create_refund c s src env q original db ≡ (ok r.payment_id, (save c s r db).1)
  unfolding create_refund load_payment save_aggregate
  refund-persists a r db named loads fits made saves = ground arith

  -- The refund of a stored payment, in whatever status that payment is, of a positive amount of at
  -- most its own: outside of debug mode and under new ids it is created and stored, and its id is
  -- returned.
  pub refund_commits :
      (a r : PaymentAggregate) (db : Database)
      → s.debug ≡ false
      → is_blank q.currency ≡ false
      → Represents c db a
      → a.payment_id ≡ original
      → decimal_gt q.amount a.amount ≡ false
      → refund_of env q original ≡ ok r
      → stream r.payment_id db.events ≡ []
      → ((e : PaymentEvent) → IsFresh s (save_target r e) 0 db)
      → let (res, db') = create_refund c s src env q original db in
        (res ≡ ok r.payment_id) × Represents c db' (record r { uncommitted_events = [] })
  refund_commits a r db production named held same_id fits made unknown fresh =
      let (b, loads, same, counts, clean) = load-Represents c db a src held in
      let loads' = subst (λ (u : Uuid). load c src u db ≡ ok b) same_id loads in
      let fits' = ap (λ (x : PaymentAggregate). decimal_gt q.amount x.amount) same ∙ fits in
      let (saves, after) =
        create-Represents c s production env
          (record (request_with wallet q) { reference_id = some original }) refund wallet
          (some (or_text q.description (codes "Refund"))) r db (refund_of-create_payment r made)
          unknown fresh in
      let step = refund-persists b r db named loads' fits' made saves in
      (
        ap (λ (p : Result Uuid × Database). p.0) step,
        subst
            (λ (p : Result Uuid × Database).
              Represents c p.1 (record r { uncommitted_events = [] }))
            (sym step) after,
      )
