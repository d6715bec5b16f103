-- ===== src/Repository/Stream.antt =====
-- When the rows of a payment hold a list of events, and what `load` makes of them
-- (src/infrastructure/repos/payment/payment_command_repo.py).
use microservice_payment_ser.Base.{
  ℕ, suc, ◌+◌, ◌≡◌, refl, true, List, [], ◌∷◌, ◌++◌, length, arith, filter_by-append, ==_refl, ap,
  sym, subst,
}
use native.Mathlib.Nat.{add-zero, zero-add}
use microservice_payment_ser.Base.Text.{codes}
use microservice_payment_ser.Base.Json.{Codec}
use microservice_payment_ser.Errors.{Uuid, ok}
use microservice_payment_ser.Payment.Events.{PaymentEvent}
use microservice_payment_ser.Payment.Events.Registry.{event_value}
use microservice_payment_ser.Payment.Events.Serial.{type_of_event, to_dict}
use microservice_payment_ser.Payment.Events.RoundTrip.{event_from_dict-to_dict}
use microservice_payment_ser.Payment.Aggregate.{PaymentAggregate, when}
use microservice_payment_ser.Payment.Aggregate.Sourcing.{replay}
use microservice_payment_ser.EventStore.{StoredEvent, Database, Setting, Target, stored_row}
use microservice_payment_ser.EventStore.Rows.{IsContiguous, order_by_version-contiguous}
use microservice_payment_ser.EventStore.Append.{rows_for}
use microservice_payment_ser.Repository.{
  Source, stream, is_payment_row, read_row, from_first, handle_rows, last_version, load_rows, load,
}

-- The rows hold the events, in order, under the versions after `v`.
abbrev pub Holds : Codec → ℕ → List StoredEvent → List PaymentEvent → Type 0
Holds c v [] [] = Unit
Holds c v [] (e ∷ es) = ⊥
Holds c v (r ∷ rows) [] = ⊥
Holds c v (r ∷ rows) (e ∷ es) =
    (r.event_type ≡ event_value (type_of_event e))
    × (r.event_payload ≡ to_dict c e)
    × (r.aggregate_version ≡ v + 1)
    × Holds c (v + 1) rows es

Holds-IsContiguous :
    (c : Codec) (v : ℕ) (rows : List StoredEvent) (es : List PaymentEvent)
    → Holds c v rows es
    → IsContiguous v rows
Holds-IsContiguous c v [] [] h = tt
Holds-IsContiguous c v [] (e ∷ es) h = absurd h
Holds-IsContiguous c v (r ∷ rows) [] h = absurd h
Holds-IsContiguous c v (r ∷ rows) (e ∷ es) h = (h.2, Holds-IsContiguous c (v + 1) rows es h.3)

read_row_of :
    (c : Codec) (src : Source) (r : StoredEvent) (e : PaymentEvent)
    → r.event_type ≡ event_value (type_of_event e)
    → r.event_payload ≡ to_dict c e
    → read_row c src r ≡ ok e
read_row_of c src r e p q = rw (p, q) (event_from_dict-to_dict c src.fresh_id src.now e)

handle_rows-replay :
    (c : Codec) (src : Source) (v : ℕ) (rows : List StoredEvent) (es : List PaymentEvent)
    (a : PaymentAggregate)
    → Holds c v rows es
    → handle_rows c src rows a ≡ ok (replay es a)
unfolding handle_rows replay
handle_rows-replay c src v [] [] a h = refl
handle_rows-replay c src v [] (e ∷ es) a h = absurd h
handle_rows-replay c src v (r ∷ rows) [] a h = absurd h
handle_rows-replay c src v (r ∷ rows) (e ∷ es) a h =
    rw (read_row_of c src r e h.0 h.1) (handle_rows-replay c src (v + 1) rows es (when e a) h.3)

last_version_of :
    (c : Codec) (v : ℕ) (r : StoredEvent) (rows : List StoredEvent) (e : PaymentEvent)
    (es : List PaymentEvent)
    → Holds c v (r ∷ rows) (e ∷ es)
    → last_version r rows ≡ v + suc (length es)
last_version_of c v r [] e [] h = omega (arith, h.2)
last_version_of c v r [] e (f ∷ es) h = absurd h.3
last_version_of c v r (x ∷ rows) e [] h = absurd h.3
last_version_of c v r (x ∷ rows) e (f ∷ es) h =
    omega (arith, last_version_of c (v + 1) x rows f es h.3)

load_rows-replay :
    (c : Codec) (src : Source) (u : Uuid) (rows : List StoredEvent) (e : PaymentEvent)
    (es : List PaymentEvent) (start : PaymentAggregate)
    → Holds c 0 rows (e ∷ es)
    → from_first src e ≡ ok start
    → load_rows c src u rows ≡ ok (record (replay es start) { version = suc (length es) })
unfolding load_rows
load_rows-replay c src u [] e es start h first = absurd h
load_rows-replay c src u (r ∷ rows) e es start h first =
    rw
      (
        read_row_of c src r e h.0 h.1,
        first,
        handle_rows-replay c src (0 + 1) rows es start h.3,
        last_version_of c 0 r rows e es h,
      )
      (ap (λ (n : ℕ). ok (record (replay es start) { version = n })) (omega arith))

-- Loading a payment whose rows hold a first event and later ones: the object that the first event
-- gives, with the later ones handled, at the version that counts them all.
pub load-replay :
    (c : Codec) (src : Source) (u : Uuid) (db : Database) (e : PaymentEvent)
    (es : List PaymentEvent) (start : PaymentAggregate)
    → Holds c 0 (stream u db.events) (e ∷ es)
    → from_first src e ≡ ok start
    → load c src u db ≡ ok (record (replay es start) { version = suc (length es) })
unfolding load
load-replay c src u db e es start h first =
    let sorted =
      order_by_version-contiguous 0 (stream u db.events) (Holds-IsContiguous c 0 _ (e ∷ es) h) in
    rw (load, sorted) (load_rows-replay c src u (stream u db.events) e es start h first)

Holds-append :
    (c : Codec) (v : ℕ) (xs ys : List StoredEvent) (ds es : List PaymentEvent)
    → Holds c v xs ds
    → Holds c (v + length ds) ys es
    → Holds c v (xs ++ ys) (ds ++ es)
Holds-append c v [] ys [] es hx hy = subst (λ n. Holds c n ys es) (add-zero v) hy
Holds-append c v [] ys (d ∷ ds) es hx hy = absurd hx
Holds-append c v (x ∷ xs) ys [] es hx hy = absurd hx
Holds-append c v (x ∷ xs) ys (d ∷ ds) es hx hy = (
  hx.0,
  hx.1,
  hx.2,
  Holds-append c (v + 1) xs ys ds es hx.3 (subst (λ n. Holds c n ys es) (shift v (length ds)) hy),
)
  where
    shift : (a b : ℕ) → a + suc b ≡ a + 1 + b
    shift a b = omega arith

-- The rows that an append adds for a payment hold its events, and are all rows of that payment.
pub Holds-rows_for :
    (c : Codec) (s : Setting) (t : Target) (es : List PaymentEvent) (v : ℕ)
    → Holds c v (rows_for c s t es v) es
Holds-rows_for c s t [] v = tt
Holds-rows_for c s t (e ∷ es) v = (refl, refl, refl, Holds-rows_for c s t es (v + 1))

pub stream-rows_for :
    (c : Codec) (s : Setting) (t : Target) (es : List PaymentEvent) (v : ℕ)
    → t.aggregate_type ≡ codes "Payment"
    → stream t.aggregate_id (rows_for c s t es v) ≡ rows_for c s t es v
stream-rows_for c s t [] v type = refl
stream-rows_for c s t (e ∷ es) v type =
    let mine : is_payment_row t.aggregate_id (stored_row c s t e (v + 1)) ≡ true =
      rw (type, ==_refl t.aggregate_id) in
    rw mine (ap (◌∷◌ (stored_row c s t e (v + 1))) (stream-rows_for c s t es (v + 1) type))

-- After an append for the payment, its rows hold the events that they held and then the new ones.
pub Holds-appended :
    (c : Codec) (s : Setting) (t : Target) (old : List StoredEvent) (ds es : List PaymentEvent)
    → t.aggregate_type ≡ codes "Payment"
    → Holds c 0 (stream t.aggregate_id old) ds
    → Holds c 0 (stream t.aggregate_id (old ++ rows_for c s t es (length ds))) (ds ++ es)
Holds-appended c s t old ds es type h =
    let added = rows_for c s t es (length ds) in
    rw
      (
        filter_by-append (is_payment_row t.aggregate_id) old added,
        stream-rows_for c s t es (length ds) type,
      )
      (Holds-append c 0 (stream t.aggregate_id old) added ds es h (
        subst (λ n. Holds c n added es) (sym (zero-add (length ds)))
          (Holds-rows_for c s t es (length ds))))
