-- ===== src/Projection/Laws.antt =====
-- The read model against the payment (src/infrastructure/projectors/payment/projector.py against
-- src/domain/apps/payment/aggregate.py).
use microservice_payment_ser.Base.{
  ◌≡◌, refl, ◌≢◌, Bool, true, false, Option, none, some, [], ◌∷◌, ◌==◌, arith, ==_iff, Bool-cases,
  sym, ap, ◌∙◌, inl, inr,
}
use microservice_payment_ser.Errors.{Uuid, ok, err, projection_invariant_violation}
use microservice_payment_ser.Payment.Types.{
  PaymentStatus, processing, succeeded, failed, cancelled, refunded,
}
use microservice_payment_ser.Payment.Aggregate.{
  PaymentAggregate, Env, Command, process_command, succeed_command, cancel_command, fail_command,
  refund_command, execute,
}
use microservice_payment_ser.Payment.Aggregate.Lifecycle.{
  event_of, next_status, status_after, execute-next_status,
}
use microservice_payment_ser.Projection.{
  ReadModel, ReadModels, find_row, update_where, reaches, guarded_update, project, set_status,
  is_pending_row, is_open_row, is_succeeded_row, failure_text,
}

module _ (u : Uuid) (test : PaymentStatus → Bool) (change : ReadModel → ReadModel) where
  reaches_of_row :
      (rows : ReadModels) (r : ReadModel)
      → find_row u rows ≡ some r
      → test r.status ≡ true
      → reaches u test rows ≡ true
  reaches_of_row [] r f t = cc
  reaches_of_row (x ∷ rows) r f t = ground (arith, reaches_of_row rows r)

  find_row-update_where :
      (keeps : (r : ReadModel) → (change r).id ≡ r.id) (rows : ReadModels) (r : ReadModel)
      → find_row u rows ≡ some r
      → test r.status ≡ true
      → find_row u (update_where u test change rows) ≡ some (change r)
  unfolding update_where
  find_row-update_where keeps [] r f t = cc
  find_row-update_where keeps (x ∷ rows) r f t =
      ground (arith, keeps x, find_row-update_where keeps rows r)

  -- other rows stay as they are
  find_row-update_where_ne :
      (keeps : (r : ReadModel) → (change r).id ≡ r.id) (w : Uuid) (rows : ReadModels)
      → w ≢ u
      → find_row w (update_where u test change rows) ≡ find_row w rows
  unfolding update_where
  find_row-update_where_ne keeps w [] ne = refl
  find_row-update_where_ne keeps w (x ∷ rows) ne =
      ground (arith, keeps x, find_row-update_where_ne keeps w rows)

  guarded_update_found :
      (keeps : (r : ReadModel) → (change r).id ≡ r.id) (rows : ReadModels) (r : ReadModel)
      → find_row u rows ≡ some r
      → test r.status ≡ true
      → let (res, rows') = guarded_update u test change rows in
        (res ≡ ok tt)
        × (find_row u rows' ≡ some (change r))
        × ((w : Uuid) → w ≢ u → find_row w rows' ≡ find_row w rows)
  unfolding guarded_update
  guarded_update_found keeps rows r f t =
      rw (reaches_of_row rows r f t)
        (refl, find_row-update_where keeps rows r f t, λ w. find_row-update_where_ne keeps w rows)

  guarded_update_stops :
      (rows : ReadModels)
      → reaches u test rows ≡ false
      → guarded_update u test change rows ≡ (err (projection_invariant_violation u), rows)
  unfolding guarded_update
  guarded_update_stops rows h = rw h

-- The table holds one row for an id, as its primary key demands.
abbrev pub IsKeyed : ReadModels → Type 0
IsKeyed [] = Unit
IsKeyed (r ∷ rows) = (find_row r.id rows ≡ none) × IsKeyed rows

module _ (u : Uuid) (test : PaymentStatus → Bool) where
  reaches_of_none : (rows : ReadModels) → find_row u rows ≡ none → reaches u test rows ≡ false
  reaches_of_none [] f = refl
  reaches_of_none (x ∷ rows) f = ground (arith, reaches_of_none rows)

  not_reaches :
      (rows : ReadModels) (r : ReadModel)
      → IsKeyed rows
      → find_row u rows ≡ some r
      → test r.status ≡ false
      → reaches u test rows ≡ false
  not_reaches [] r k f t = cc
  not_reaches (x ∷ rows) r k f t = elim (Bool-cases (x.id == u)) [
    | inl e ↦
        let same : x.id ≡ u = (==_iff x.id u).0 e in
        ground (arith, reaches_of_none rows (rw (← same) k.0))
    | inr e ↦ ground (arith, not_reaches rows r k.1)
  ]

abbrev pub row_status : Uuid → ReadModels → Option PaymentStatus
row_status u rows = elim (find_row u rows) [ none ↦ none | some r ↦ some r.status ]

-- The read model shows the payment.
pub record Shows (a : PaymentAggregate) (rows : ReadModels) : Type 0 where
  pub row : ReadModel
  pub found : find_row a.payment_id rows ≡ some row
  pub in_status : row.status ≡ a.status

-- The update that the projection of a command's event makes.
abbrev guard_of : Command → PaymentStatus → Bool
guard_of process_command = is_pending_row
guard_of succeed_command = is_open_row
guard_of cancel_command = is_pending_row
guard_of (fail_command reason) = is_open_row
guard_of (refund_command id) = is_succeeded_row

abbrev change_of : Command → ReadModel → ReadModel
change_of process_command = set_status processing
change_of succeed_command = set_status succeeded
change_of cancel_command = set_status cancelled
change_of (fail_command reason) =
    λ r. record r { status = failed; description = some (failure_text reason) }
change_of (refund_command id) = set_status refunded

project-event_of :
    (c : Command) (env : Env) (a : PaymentAggregate) (rows : ReadModels)
    → project (event_of c env a) rows ≡ guarded_update a.payment_id (guard_of c) (change_of c) rows
unfolding project
project-event_of process_command env a rows = refl
project-event_of succeed_command env a rows = refl
project-event_of cancel_command env a rows = refl
project-event_of (fail_command reason) env a rows = refl
project-event_of (refund_command id) env a rows = refl

id-change_of : (c : Command) (r : ReadModel) → (change_of c r).id ≡ r.id
id-change_of process_command r = refl
id-change_of succeed_command r = refl
id-change_of cancel_command r = refl
id-change_of (fail_command reason) r = refl
id-change_of (refund_command id) r = refl

status-change_of :
    (c : Command) (s t : PaymentStatus) (r : ReadModel)
    → next_status c s ≡ some t
    → (change_of c r).status ≡ t
status-change_of process_command s t r n = ground arith
status-change_of succeed_command s t r n = ground arith
status-change_of cancel_command s t r n = ground arith
status-change_of (fail_command reason) s t r n = ground arith
status-change_of (refund_command id) s t r n = ground arith

guard_of_live :
    (c : Command) (s t : PaymentStatus)
    → next_status c s ≡ some t
    → s ≢ failed
    → guard_of c s ≡ true
guard_of_live process_command s t n live = ground arith
guard_of_live succeed_command s t n live = ground arith
guard_of_live cancel_command s t n live = ground arith
guard_of_live (fail_command reason) s t n live = ground arith
guard_of_live (refund_command id) s t n live = ground arith

guard_of_failed : (c : Command) → guard_of c failed ≡ false
guard_of_failed process_command = refl
guard_of_failed succeed_command = refl
guard_of_failed cancel_command = refl
guard_of_failed (fail_command reason) = refl
guard_of_failed (refund_command id) = refl

-- A command that goes through on a payment which has not failed: the projection of its event goes
-- through as well, the row of the payment then has the new status, and every other row is as
-- before.
pub project_follows :
    (c : Command) (env : Env) (a b : PaymentAggregate) (rows : ReadModels)
    → execute c env a ≡ ok b
    → Shows a rows
    → a.status ≢ failed
    → let (res, rows') = project (event_of c env a) rows in
      (res ≡ ok tt)
      × (row_status a.payment_id rows' ≡ some b.status)
      × ((w : Uuid) → w ≢ a.payment_id → find_row w rows' ≡ find_row w rows)
project_follows c env a b rows h s live =
    let n : next_status c a.status ≡ some b.status =
      sym (execute-next_status c env a) ∙ ap status_after h in
    let passes : guard_of c s.row.status ≡ true =
      ap (guard_of c) s.in_status ∙ guard_of_live c a.status b.status n live in
    let (goes, row, rest) =
      guarded_update_found a.payment_id (guard_of c) (change_of c) (id-change_of c) rows s.row
        s.found passes in
    rw (project-event_of c env a rows)
      (goes, rw (row, row_status) (ap some (status-change_of c a.status b.status s.row n)), rest)

-- A payment that has failed takes `succeed` and `fail` once more, and the read model refuses the
-- event of either: the projection raises and changes no row.
pub failed_not_projected :
    (c : Command) (env : Env) (a b : PaymentAggregate) (rows : ReadModels)
    → execute c env a ≡ ok b
    → IsKeyed rows
    → Shows a rows
    → a.status ≡ failed
    → project (event_of c env a) rows ≡ (err (projection_invariant_violation a.payment_id), rows)
failed_not_projected c env a b rows h k s dead =
    let stops : guard_of c s.row.status ≡ false =
      ap (guard_of c) (s.in_status ∙ dead) ∙ guard_of_failed c in
    rw (project-event_of c env a rows) (
      guarded_update_stops a.payment_id (guard_of c) (change_of c) rows
        (not_reaches a.payment_id (guard_of c) rows s.row k s.found stops))
