-- ===== src/Executor/Once.antt =====
-- Requests that repeat an idempotency key
-- (src/application/payment/handlers/payment_command_handlers.py).
use microservice_payment_ser.Base.{
  ◌<◌, ◌≡◌, refl, sym, ap, ap₂, subst, ◌∙◌, inl, inr, Option, none, some, arith,
}
use microservice_payment_ser.Base.Text.{Text, strip}
use microservice_payment_ser.Base.Json.{Members, Codec}
use microservice_payment_ser.Errors
use microservice_payment_ser.Errors.{Uuid, Time, Error, Result, ok, err, Result-cases}
use microservice_payment_ser.Action.{Action}
use microservice_payment_ser.EventStore.{Database}
use microservice_payment_ser.Idempotency.Key.{IdempotencyKey, StoredResponse}
use microservice_payment_ser.Idempotency.Store.{Keys, find, ClaimRequest}
use microservice_payment_ser.Idempotency.Service.{
  process_request, begin_request_processing, record_success, record_successful_response,
}
use microservice_payment_ser.Idempotency.Service.Granted.{begin-Granted}
use microservice_payment_ser.Idempotency.Service.Replay.{recorded_then_replayed}
use microservice_payment_ser.Executor.{
  PaymentView, System, CreationCall, build_view, success_response, stored_payment, claim_of,
  first_execution, execute_payment_creation,
}

-- The body that a success leaves names the payment again.
stored_payment-success_response :
    (c : Codec) (v : PaymentView) → stored_payment c (success_response c v).body ≡ ok v.payment_id
unfolding stored_payment
stored_payment-success_response c v = ground (arith, c.uuid_of-uuid_str v.payment_id)

build_view-payment_id :
    (c : Codec) (now : Time) (id : Uuid) (payload : Members) (v : PaymentView)
    → build_view c now id payload ≡ ok v
    → v.payment_id ≡ id
unfolding build_view
build_view-payment_id c now id payload v h = ground arith

begin-answered :
    (now : Time) (q : ClaimRequest) (ks : Keys) (r : StoredResponse)
    → process_request now q ks ≡ (ok (some r), ks)
    → begin_request_processing now q ks ≡ (ok (some r), ks)
unfolding begin_request_processing
begin-answered now q ks r h = ground arith

record-goes :
    (now : Time) (key : Text) (user : Uuid) (r : StoredResponse) (ks : Keys)
    → (record_success now key user r ks).0 ≡ ok tt
    → record_successful_response now key user r ks ≡ (ok tt, (record_success now key user r ks).1)
unfolding record_successful_response
record-goes now key user r ks h = ground arith

abbrev Recorded : Type 0
Recorded = Result (Unit {0}) × Keys

abbrev Begun : Type 0
Begun = Result (Option StoredResponse) × Keys

abbrev Outcome : Type 0
Outcome = Result PaymentView × System

module _ (c : Codec) (fingerprint : Members → Text) (message : Error → Text)
    (fetch_view : Uuid → Database → Result PaymentView) where
  abbrev begin : CreationCall → Action Keys (Option StoredResponse)
  begin call = begin_request_processing call.began (claim_of fingerprint call)

  abbrev executed : CreationCall → Action Database Uuid → Action System PaymentView
  executed = execute_payment_creation c fingerprint message fetch_view

  abbrev viewed : Result Uuid → Database → Keys → Outcome
  viewed id db keys = (Errors.◌>>=◌ id (λ u. fetch_view u db), record { keys = keys; db = db })

  executed-refused :
      (call : CreationCall) (command : Action Database Uuid) (sys : System) (x : Error)
      → (begin call sys.keys).0 ≡ err x
      → (executed call command sys).1.db ≡ sys.db
  unfolding execute_payment_creation
  executed-refused call command sys x h = ground arith

  executed-answered :
      (call : CreationCall) (command : Action Database Uuid) (sys : System) (r : StoredResponse)
      → (begin call sys.keys).0 ≡ ok (some r)
      → executed call command sys ≡ (
        Errors.◌>>=◌ (stored_payment c r.body) (λ id. fetch_view id sys.db),
        record sys { keys = (begin call sys.keys).1 },
      )
  unfolding execute_payment_creation
  executed-answered call command sys r h = ground arith

  executed-given :
      (call : CreationCall) (command : Action Database Uuid) (sys : System)
      → (begin call sys.keys).0 ≡ ok none
      → executed call command sys
        ≡ first_execution c fingerprint message fetch_view call command
            (record sys { keys = (begin call sys.keys).1 })
  unfolding execute_payment_creation
  executed-given call command sys h = ground arith

  first_execution-goes :
      (call : CreationCall) (command : Action Database Uuid) (keys keys' : Keys) (db db' : Database)
      (id : Uuid) (v : PaymentView)
      → command db ≡ (ok id, db')
      → build_view c call.ended id call.payload ≡ ok v
      → record_successful_response call.ended call.claim.key call.claim.user_id
          (success_response c v)
          keys
        ≡ (ok tt, keys')
      → first_execution c fingerprint message fetch_view call command
          (record { keys = keys; db = db })
        ≡ (ok v, record { keys = keys'; db = db' })
  first_execution-goes call command keys keys' db db' id v runs built recorded = ground arith

  first_execution-unseen :
      (call : CreationCall) (command : Action Database Uuid) (keys : Keys) (db db' : Database)
      (id : Uuid) (x : Error)
      → command db ≡ (ok id, db')
      → build_view c call.ended id call.payload ≡ err x
      → let after =
          first_execution c fingerprint message fetch_view call command
            (record { keys = keys; db = db }) in
        (after.0 ≡ err x) × (after.1.db ≡ db')
  first_execution-unseen call command keys db db' id x runs unseen = ground arith

  -- A call whose command goes through and whose view cannot be built raises, and the tables stay as
  -- the command leaves them.
  pub executed-unseen :
      (call : CreationCall) (command : Action Database Uuid) (sys : System) (db' : Database)
      (id : Uuid) (x : Error)
      → (begin call sys.keys).0 ≡ ok none
      → command sys.db ≡ (ok id, db')
      → build_view c call.ended id call.payload ≡ err x
      → let (res, sys') =
          execute_payment_creation c fingerprint message fetch_view call command sys in
        (res ≡ err x) × (sys'.db ≡ db')
  executed-unseen call command sys db' id x given runs unseen =
      let step = executed-given call command sys given in
      let (res, rest) =
        first_execution-unseen call command (begin call sys.keys).1 sys.db db' id x runs unseen in
      (ap (λ (y : Outcome). y.0) step ∙ res, ap (λ (y : Outcome). y.1.db) step ∙ rest)

  no_work_from :
      (call : CreationCall) (command : Action Database Uuid) (sys : System)
      (o : Option StoredResponse)
      → (begin call sys.keys).0 ≡ ok o
      → ¬ (o ≡ none)
      → (executed call command sys).1.db ≡ sys.db
  no_work_from call command sys none h idle = absurd (idle refl)
  no_work_from call command sys (some r) h idle =
      ap (λ (x : Outcome). x.1.db) (executed-answered call command sys r h)

  -- A call that is not given the work, for whatever reason, does not run its command: the payment
  -- tables stay as they are.
  pub no_work_no_command :
      (call : CreationCall) (command : Action Database Uuid) (sys : System)
      → ¬ ((begin call sys.keys).0 ≡ ok none)
      → (execute_payment_creation c fingerprint message fetch_view call command sys).1.db ≡ sys.db
  no_work_no_command call command sys idle = elim (Result-cases (begin call sys.keys).0) [
    | inl (o, h) ↦
        no_work_from call command sys o h
          λ empty. idle (h ∙ ap (λ (x : Option StoredResponse). ok x) empty)
    | inr (x, h) ↦ executed-refused call command sys x h
  ]

  -- A request that is given the work, whose key has no spaces around it, whose command goes through
  -- and whose view can be built: the call returns the view, and leaves the payment tables as the
  -- command does. Every later call with the key and the user, with whatever payload and command,
  -- that begins while the key lives returns the view of the same payment as the query gives it, and
  -- changes no table, provided that the first has ended while the key lives.
  pub executed_once :
      (call again : CreationCall) (command other : Action Database Uuid) (sys : System)
      (db' : Database) (id : Uuid) (v : PaymentView)
      → strip call.claim.key ≡ call.claim.key
      → (begin call sys.keys).0 ≡ ok none
      → command sys.db ≡ (ok id, db')
      → build_view c call.ended id call.payload ≡ ok v
      → again.claim.key ≡ call.claim.key
      → again.claim.user_id ≡ call.claim.user_id
      → ((row : IdempotencyKey)
          → find call.claim.key call.claim.user_id (begin call sys.keys).1 ≡ some row
          → (call.ended < row.expires_at) × (again.began < row.expires_at))
      → let (res, sys') =
          execute_payment_creation c fingerprint message fetch_view call command sys in
        (res ≡ ok v)
        × (sys'.db ≡ db')
        × (execute_payment_creation c fingerprint message fetch_view again other sys'
            ≡ (fetch_view id db', sys'))
  executed_once call again command other sys db' id v bare given runs built same_key same_user
        live =
      let keys = (begin call sys.keys).1 in
      let g = begin-Granted call.began (claim_of fingerprint call) sys.keys bare given in
      let (timely, alive) = live g.row g.found in
      let r = success_response c v in
      let found =
        ap₂ (λ (key : Text) (user : Uuid). find key user keys) g.same_key g.same_user ∙ g.found in
      let (goes, replays, _, _) =
        recorded_then_replayed call.ended again.began r g.row keys (claim_of fingerprint again)
          found g.named g.is_open timely (same_key ∙ sym g.same_key) (same_user ∙ sym g.same_user)
          alive in
      let same =
        ap₂ (λ (key : Text) (user : Uuid). record_success call.ended key user r keys) g.same_key
          g.same_user in
      let keys' = (record_success call.ended call.claim.key call.claim.user_id r keys).1 in
      let after : System = record { keys = keys'; db = db' } in
      let recorded =
        record-goes call.ended call.claim.key call.claim.user_id r keys
          (ap (λ (x : Recorded). x.0) (sym same) ∙ goes) in
      let first =
        executed-given call command sys given
        ∙ first_execution-goes call command keys keys' sys.db db' id v runs built recorded in
      let answered = begin-answered again.began (claim_of fingerprint again) keys' r (
        subst
          (λ (x : Recorded).
            process_request again.began (claim_of fingerprint again) x.1 ≡ (ok (some r), x.1))
          same replays) in
      let second =
        executed-answered again other after r (ap (λ (x : Begun). x.0) answered)
        ∙ ap₂ (λ (p : Result Uuid) (k : Keys). viewed p db' k)
            (stored_payment-success_response c v
              ∙ ap (λ (u : Uuid). ok u)
                  (build_view-payment_id c call.ended id call.payload v built))
            (ap (λ (x : Begun). x.1) answered) in
      (
        ap (λ (x : Outcome). x.0) first,
        ap (λ (x : Outcome). x.1.db) first,
        subst (λ (x : Outcome). executed again other x.1 ≡ (fetch_view id db', x.1)) (sym first)
            second,
      )
