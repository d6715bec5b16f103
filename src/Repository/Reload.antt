-- ===== src/Repository/Reload.antt =====
-- Saving a payment and loading it again (src/infrastructure/repos/payment/payment_command_repo.py
-- over src/infrastructure/repos/event_store_repo.py).
use microservice_payment_ser.Base.{
  ℕ, suc, ◌+◌, ◌-◌, ◌≤◌, ◌≡◌, refl, false, List, [], ◌∷◌, ◌++◌, length, length-append, append-nil,
  arith, ap, sym, subst, ◌∙◌,
}
use microservice_payment_ser.Base.Json.{Codec}
use microservice_payment_ser.Errors.{Uuid, Result, ok}
use microservice_payment_ser.Payment.Events.{
  PaymentEvent, payment_created, EventHead, CreatedFields,
}
use microservice_payment_ser.Payment.Aggregate.{PaymentAggregate, Env, Command, run, when}
use microservice_payment_ser.Payment.Aggregate.Sourcing.{replay, bare, run-replay, replay-append}
use microservice_payment_ser.EventStore.{Database, Setting, append}
use microservice_payment_ser.EventStore.Append.{IsFresh, append_commits, rows_for, outbox_after}
use microservice_payment_ser.Action.{pure, >>-ok}
use microservice_payment_ser.Repository.{
  Source, stream, from_first, load, save, save_popped, save_target,
}
use microservice_payment_ser.Repository.Stream.{Holds, Holds-appended, load-replay}

-- A payment without its timestamps and without what only the running object keeps. The timestamps
-- are left out since `load` does not handle the first event, and dates the object at the load.
abbrev pub timeless : PaymentAggregate → PaymentAggregate
timeless a = record a { created_at = 0; updated_at = 0; version = 0; uncommitted_events = [] }

timeless-when :
    (e : PaymentEvent) (a : PaymentAggregate) → timeless (when e a) ≡ timeless (when e (timeless a))
unfolding when
timeless-when (payment_created h f) a = refl
timeless-when _ a = refl

timeless-replay :
    (es : List PaymentEvent) (a b : PaymentAggregate)
    → timeless a ≡ timeless b
    → timeless (replay es a) ≡ timeless (replay es b)
unfolding replay
timeless-replay [] a b h = h
timeless-replay (e ∷ es) a b h = timeless-replay es (when e a) (when e b) (
    timeless-when e a
    ∙ ap (λ (x : PaymentAggregate). timeless (when e x)) h
    ∙ sym (timeless-when e b))

uncommitted_events-replay :
    (es : List PaymentEvent) (a : PaymentAggregate)
    → (replay es a).uncommitted_events ≡ a.uncommitted_events
unfolding replay when
uncommitted_events-replay [] a = refl
uncommitted_events-replay (payment_created h f ∷ es) a =
    uncommitted_events-replay es (when (payment_created h f) a)
uncommitted_events-replay (e ∷ es) a = uncommitted_events-replay es (when e a)

from_first_any_time :
    (src later : Source) (h : EventHead) (f : CreatedFields) (a : PaymentAggregate)
    → from_first src (payment_created h f) ≡ ok a
    → (b : PaymentAggregate) × (from_first later (payment_created h f) ≡ ok b)
      × (timeless b ≡ timeless a)
      × (b.uncommitted_events ≡ [])
unfolding from_first
from_first_any_time src later h f a e =
    (record a { created_at = later.now; updated_at = later.now }, ground arith, refl, ground arith)

-- The tables hold the payment: its rows hold a first event and later ones, which rebuild it.
pub record Represents (c : Codec) (db : Database) (a : PaymentAggregate) : Type 0 where
  pub first_head : EventHead
  pub first_fields : CreatedFields
  pub later : List PaymentEvent
  pub begun_at : Source
  pub start : PaymentAggregate
  pub rows :
      Holds c 0 (stream a.payment_id db.events) (payment_created first_head first_fields ∷ later)
  pub counted : a.version ≡ suc (length later)
  pub begins : from_first begun_at (payment_created first_head first_fields) ≡ ok start
  pub rebuilt : timeless a ≡ timeless (replay later start)

abbrev first : {c : Codec} {db : Database} {a : PaymentAggregate} → Represents c db a → PaymentEvent
first r = payment_created r.first_head r.first_fields

-- What the tables hold can be loaded: the object has the version and, its timestamps apart, the
-- state of the payment, and no event to save.
pub load-Represents :
    (c : Codec) (db : Database) (a : PaymentAggregate) (src : Source)
    → Represents c db a
    → (b : PaymentAggregate) × (load c src a.payment_id db ≡ ok b)
      × (timeless b ≡ timeless a)
      × (b.version ≡ a.version)
      × (b.uncommitted_events ≡ [])
load-Represents c db a src r =
    let (b, begins, same, empty) =
      from_first_any_time r.begun_at src r.first_head r.first_fields r.start r.begins in
    let e = payment_created r.first_head r.first_fields in
    (
      record (replay r.later b) { version = suc (length r.later) },
      load-replay c src a.payment_id db e r.later b r.rows begins,
      timeless-replay r.later b r.start same ∙ sym r.rebuilt,
      sym r.counted,
      uncommitted_events-replay r.later b ∙ empty,
    )

payment_id-replay :
    (es : List PaymentEvent) (a : PaymentAggregate) → (replay es a).payment_id ≡ a.payment_id
unfolding replay when
payment_id-replay [] a = refl
payment_id-replay (payment_created h f ∷ es) a = payment_id-replay es (when (payment_created h f) a)
payment_id-replay (e ∷ es) a = payment_id-replay es (when e a)

-- The tables after a save of these events.
abbrev pub saved :
    Codec → Setting → PaymentAggregate → PaymentEvent → List PaymentEvent → Database → Database
saved c s a e es db =
    let t = save_target a e in
    record db {
      events = db.events ++ rows_for c s t (e ∷ es) t.expected_version;
      outbox = outbox_after c s t (e ∷ es) t.expected_version db.outbox;
    }

pub save_fresh :
    (c : Codec) (s : Setting) (a : PaymentAggregate) (e : PaymentEvent) (es : List PaymentEvent)
    (db : Database)
    → s.debug ≡ false
    → a.uncommitted_events ≡ e ∷ es
    → IsFresh s (save_target a e) (a.version - length a.uncommitted_events) db
    → length a.uncommitted_events ≤ a.version
    → save c s a db ≡ (ok (record a { uncommitted_events = [] }), saved c s a e es db)
unfolding save save_popped
save_fresh c s a e es db production has fresh fits =
    let t = save_target a e in
    let popped = record a { uncommitted_events = [] } in
    let counted : a.version - length a.uncommitted_events + suc (length es) ≡ a.version =
      omega (arith, ap length has) in
    ap (λ (x : List PaymentEvent). save_popped c s a x popped db) has
    ∙ >>-ok (append c s t (e ∷ es))
        (pure (record popped { version = t.expected_version + suc (length es) })) db
        (saved c s a e es db) (append_commits c s t production (e ∷ es) db fresh)
    ∙ ap (λ (n : ℕ). (ok (record popped { version = n }), saved c s a e es db)) counted

-- What the tables hold once further events of a payment have been added to them.
Represents-extend :
    (c : Codec) (db db' : Database) (a d : PaymentAggregate) (es : List PaymentEvent)
    (r : Represents c db a)
    → d.version ≡ a.version + length es
    → timeless d ≡ timeless (replay es a)
    → Holds c 0
        (stream d.payment_id db'.events)
        ((payment_created r.first_head r.first_fields ∷ r.later) ++ es)
    → Represents c db' d
Represents-extend c db db' a d es r counts same holds = record {
  first_head = r.first_head;
  first_fields = r.first_fields;
  later = r.later ++ es;
  begun_at = r.begun_at;
  start = r.start;
  rows = holds;
  counted = counts ∙ omega (arith, r.counted, length-append r.later es);
  begins = r.begins;
  rebuilt =
      same
      ∙ timeless-replay es a (replay r.later r.start) r.rebuilt
      ∙ ap timeless (sym (replay-append r.later es r.start));
}

-- What a life of a payment leaves to be saved.
record Lived (a d : PaymentAggregate) (es : List PaymentEvent) : Type 0 where
  events : d.uncommitted_events ≡ es
  counts : d.version ≡ a.version + length es
  same : timeless d ≡ timeless (replay es a)
  mine : d.payment_id ≡ a.payment_id

Lived-run :
    (cs : List (Command × Env)) (a d : PaymentAggregate)
    → a.uncommitted_events ≡ []
    → run cs a ≡ ok d
    → (es : List PaymentEvent) × Lived a d es
Lived-run cs a d clean goes =
    let (es, recorded, counts, rebuilt) = run-replay cs a d goes in
    (
      es,
      record {
        events = recorded ∙ ap (λ (x : List PaymentEvent). x ++ es) clean;
        counts = counts;
        same = ap timeless rebuilt ∙ timeless-replay es (bare a) a refl;
        mine = ap (λ (x : PaymentAggregate). x.payment_id) rebuilt ∙ payment_id-replay es (bare a);
      },
    )

module _ (c : Codec) (s : Setting) (production : s.debug ≡ false) where
  save-Lived :
      (es : List PaymentEvent) (a d : PaymentAggregate) (db : Database)
      → Represents c db a
      → Lived a d es
      → ((e : PaymentEvent) → IsFresh s (save_target d e) a.version db)
      → let (res, db') = save c s d db in
        (res ≡ ok (record d { uncommitted_events = [] }))
        × Represents c db' (record d { uncommitted_events = [] })
  unfolding save save_popped
  save-Lived [] a d db r l fresh =
      let popped = record d { uncommitted_events = [] } in
      let nothing : save c s d db ≡ (ok popped, db) =
        ap (λ (x : List PaymentEvent). save_popped c s d x popped db) l.events in
      let holds =
        subst (λ (u : Uuid). Holds c 0 (stream u db.events) (first r ∷ r.later ++ [])) (sym l.mine)
          (rw append-nil r.rows) in
      (
        ap (λ (x : Result PaymentAggregate × Database). x.0) nothing,
        subst (λ (x : Result PaymentAggregate × Database). Represents c x.1 popped) (sym nothing)
            (Represents-extend c db db a popped [] r l.counts l.same holds),
      )
  save-Lived (e ∷ es) a d db r l fresh =
      let popped = record d { uncommitted_events = [] } in
      let t = save_target d e in
      let expected : a.version ≡ d.version - length d.uncommitted_events =
        omega (arith, l.counts, ap length l.events) in
      let goes =
        save_fresh c s d e es db production l.events
          (subst (λ (n : ℕ). IsFresh s t n db) expected (fresh e))
          (omega (arith, l.counts, ap length l.events)) in
      let before =
        subst (λ (u : Uuid). Holds c 0 (stream u db.events) (first r ∷ r.later)) (sym l.mine)
          r.rows in
      let holds =
        subst
          (λ (n : ℕ).
            Holds c 0 (stream d.payment_id (db.events ++ rows_for c s t (e ∷ es) n))
              (first r ∷ r.later ++ e ∷ es))
          (sym r.counted ∙ expected)
          (Holds-appended c s t db.events (first r ∷ r.later) (e ∷ es) refl before) in
      (
        ap (λ (x : Result PaymentAggregate × Database). x.0) goes,
        subst (λ (x : Result PaymentAggregate × Database). Represents c x.1 popped) (sym goes)
            (Represents-extend c db (saved c s d e es db) a popped (e ∷ es) r l.counts l.same
              holds),
      )

  -- A life of a payment that the tables hold, saved under new ids: the save goes through, and the
  -- tables then hold the payment as the life has left it.
  pub save-Represents :
      (cs : List (Command × Env)) (a d : PaymentAggregate) (db : Database)
      → Represents c db a
      → a.uncommitted_events ≡ []
      → run cs a ≡ ok d
      → ((e : PaymentEvent) → IsFresh s (save_target d e) a.version db)
      → let (res, db') = save c s d db in
        (res ≡ ok (record d { uncommitted_events = [] }))
        × Represents c db' (record d { uncommitted_events = [] })
  save-Represents cs a d db r clean goes fresh =
      let (es, l) = Lived-run cs a d clean goes in save-Lived es a d db r l fresh
