-- ===== src/EventStore/Rebuild/Incremental.antt =====
-- The rebuild against applying the rows one by one
-- (src/infrastructure/apps/outbox/management/commands/rebuild_payment_projection.py).
use microservice_payment_ser.Base.{
  ◌≡◌, refl, sym, ap, ◌∙◌, inl, inr, Option, none, some, List, [], ◌∷◌, arith,
}
use microservice_payment_ser.Base.Json.{Codec}
use microservice_payment_ser.Errors.{Uuid, Time, Error, Result, ok, err, Result-cases}
use microservice_payment_ser.Payment.Events.{PaymentEvent}
use microservice_payment_ser.Projection.{ReadModels, project}
use microservice_payment_ser.Projection.Runner.{Projections}
use microservice_payment_ser.EventStore.{StoredEvent, Database}
use microservice_payment_ser.EventStore.Rebuild.{
  event_of_row, apply_row, apply_rows, payment_rows, rebuild_loop, rebuild, enabled,
}

-- One row of the loop against `apply`.
apply_row-goes :
    (c : Codec) (fresh : Uuid) (now : Time) (r : StoredEvent) (models : ReadModels)
    (last : Option Uuid) (e : PaymentEvent)
    → event_of_row c fresh now r ≡ ok e
    → (project e models).0 ≡ ok tt
    → apply_row c fresh now r (enabled models last)
      ≡ (ok tt, enabled (project e models).1 (some r.id))
unfolding apply_row
apply_row-goes c fresh now r models last e reads goes = ground arith

apply_rows-unread :
    (c : Codec) (fresh : Uuid) (now : Time) (r : StoredEvent) (rows : List StoredEvent)
    (models : ReadModels) (last : Option Uuid) (x : Error)
    → event_of_row c fresh now r ≡ err x
    → (apply_rows c fresh now (r ∷ rows) (enabled models last)).0 ≡ err x
unfolding apply_rows apply_row
apply_rows-unread c fresh now r rows models last x h = ground arith

apply_rows-stops :
    (c : Codec) (fresh : Uuid) (now : Time) (r : StoredEvent) (rows : List StoredEvent)
    (models : ReadModels) (last : Option Uuid) (e : PaymentEvent) (x : Error)
    → event_of_row c fresh now r ≡ ok e
    → (project e models).0 ≡ err x
    → (apply_rows c fresh now (r ∷ rows) (enabled models last)).0 ≡ err x
unfolding apply_rows apply_row
apply_rows-stops c fresh now r rows models last e x reads stops = ground arith

rebuild_loop-goes :
    (c : Codec) (fresh : Uuid) (now : Time) (r : StoredEvent) (rows : List StoredEvent)
    (models : ReadModels) (last : Option Uuid) (e : PaymentEvent)
    → event_of_row c fresh now r ≡ ok e
    → (project e models).0 ≡ ok tt
    → rebuild_loop c fresh now (r ∷ rows) last models
      ≡ rebuild_loop c fresh now rows (some r.id) (project e models).1
unfolding rebuild_loop
rebuild_loop-goes c fresh now r rows models last e reads goes = ground arith

apply_rows-goes :
    (c : Codec) (fresh : Uuid) (now : Time) (r : StoredEvent) (rows : List StoredEvent)
    (p q : Projections)
    → apply_row c fresh now r p ≡ (ok tt, q)
    → apply_rows c fresh now (r ∷ rows) p ≡ apply_rows c fresh now rows q
unfolding apply_rows
apply_rows-goes c fresh now r rows p q h = ground arith

abbrev Applied : Type 0
Applied = Result (Unit {0}) × Projections

-- What the loop ends with when the rows can be applied one by one.
abbrev Rebuilt :
    Codec → Uuid → Time → List StoredEvent → ReadModels → Option Uuid → Projections → Type 0
Rebuilt c fresh now rows models last p =
    (after : ReadModels) × (end : Option Uuid) × (rebuild_loop c fresh now rows last models
      ≡ (ok end, after))
    × (p ≡ enabled after end)

apply_rows-Rebuilt :
    (c : Codec) (fresh : Uuid) (now : Time) (rows : List StoredEvent) (models : ReadModels)
    (last : Option Uuid) (p : Projections)
    → apply_rows c fresh now rows (enabled models last) ≡ (ok tt, p)
    → Rebuilt c fresh now rows models last p
unfolding rebuild_loop apply_rows
apply_rows-Rebuilt c fresh now [] models last p h = (models, last, refl, ground arith)
apply_rows-Rebuilt c fresh now (r ∷ rows) models last p h =
    elim (Result-cases (event_of_row c fresh now r)) [
      | inr (x, bad) ↦ ground (
        arith,
        ap (λ (x : Applied). x.0) h,
        apply_rows-unread c fresh now r rows models last x bad,
      )
      | inl (e, reads) ↦ elim (Result-cases (project e models).0) [
        | inr (x, stops) ↦ ground (
          arith,
          ap (λ (x : Applied). x.0) h,
          apply_rows-stops c fresh now r rows models last e x reads stops,
        )
        | inl (u, goes) ↦
            let step =
              apply_rows-goes c fresh now r rows (enabled models last)
                (enabled (project e models).1 (some r.id))
                (apply_row-goes c fresh now r models last e reads goes) in
            let (after, end, loops, same) =
              apply_rows-Rebuilt c fresh now rows (project e models).1 (some r.id) p
                (sym step ∙ h) in
            (
              after,
              end,
              rebuild_loop-goes c fresh now r rows models last e reads goes ∙ loops,
              same,
            )
      ]
    ]

rebuild-loops :
    (c : Codec) (fresh : Uuid) (now : Time) (db : Database) (after : ReadModels) (end : Option Uuid)
    → rebuild_loop c fresh now (payment_rows db) none [] ≡ (ok end, after)
    → rebuild c fresh now db ≡ (ok tt, record db { projections = enabled after end })
unfolding rebuild
rebuild-loops c fresh now db after end h = ground arith

-- When the stored payment events, in the order of their creation, can be applied one by one to an
-- empty read model, the rebuild goes through: it leaves the read model and the state of the
-- projection that applying them leaves, and no other table changes.
pub rebuild-apply_rows :
    (c : Codec) (fresh : Uuid) (now : Time) (db : Database) (p : Projections)
    → apply_rows c fresh now (payment_rows db) (enabled [] none) ≡ (ok tt, p)
    → rebuild c fresh now db ≡ (ok tt, record db { projections = p })
rebuild-apply_rows c fresh now db p h =
    let (after, end, loops, same) = apply_rows-Rebuilt c fresh now (payment_rows db) [] none p h in
    rebuild-loops c fresh now db after end loops
    ∙ ap (λ (q : Projections). (ok tt, record db { projections = q })) (sym same)
