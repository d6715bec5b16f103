-- ===== src/Payment/Older/Agreement.antt =====
-- The payment before events (src/domain/apps/payment/models.py) and the aggregate
-- (src/domain/apps/payment/aggregate.py) side by side.
use microservice_payment_ser.Base.{
  ◌≡◌, refl, false, Option, none, some, List, [], ◌∷◌, arith, inl, inr,
}
use microservice_payment_ser.Base.Text.{Text, is_empty, upper_idem}
use microservice_payment_ser.Base.Decimal.{Decimal}
use microservice_payment_ser.Errors.{Uuid, Error, Result, ok, err, Result-cases}
use microservice_payment_ser.Payment.Types.{status_value, type_value, method_value}
use microservice_payment_ser.Payment.Aggregate.{
  PaymentAggregate, PaymentRequest, Env, Command, process_command, succeed_command, cancel_command,
  fail_command, refund_command, execute, run, create_deposit, create_withdrawal, create_refund,
  is_wallet,
}
use microservice_payment_ser.Payment.Older.{
  Payment, perform, perform_all, make_deposit, make_withdrawal, make_refund, payment_to_view,
}
use microservice_payment_ser.Executor.{PaymentView}

-- What the aggregate holds besides its version and its events.
abbrev pub payment_of : PaymentAggregate → Payment
payment_of a = record {
  payment_id = a.payment_id;
  wallet_id = a.wallet_id;
  user_id = a.user_id;
  amount = a.amount;
  currency = a.currency;
  payment_type = a.payment_type;
  payment_method = a.payment_method;
  reference_id = a.reference_id;
  description = a.description;
  status = a.status;
  created_at = a.created_at;
  updated_at = a.updated_at;
}

-- `to_view` of the aggregate
unfoldable pub aggregate_to_view : (Decimal → Text) → PaymentAggregate → PaymentView
aggregate_to_view printed a = record {
  payment_id = a.payment_id;
  wallet_id = a.wallet_id;
  user_id = a.user_id;
  amount = printed a.amount;
  currency = a.currency;
  payment_type = type_value a.payment_type;
  payment_method = method_value a.payment_method;
  status = status_value a.status;
  reference_id = a.reference_id;
  description = a.description;
  created_at = a.created_at;
  updated_at = a.updated_at;
}

abbrev pub end_of : Result Payment → Option Payment
end_of (ok p) = some p
end_of (err e) = none

abbrev pub end_of_aggregate : Result PaymentAggregate → Option Payment
end_of_aggregate (ok a) = some (payment_of a)
end_of_aggregate (err e) = none

perform-execute :
    (c : Command) (env : Env) (a : PaymentAggregate)
    → end_of (perform c env.now (payment_of a)) ≡ end_of_aggregate (execute c env a)
unfolding perform execute
perform-execute process_command env a = ground arith
perform-execute succeed_command env a = ground arith
perform-execute cancel_command env a = ground arith
perform-execute (fail_command reason) env a = ground arith
perform-execute (refund_command id) env a = ground arith

perform-ok :
    (c : Command) (env : Env) (a b : PaymentAggregate)
    → execute c env a ≡ ok b
    → perform c env.now (payment_of a) ≡ ok (payment_of b)
perform-ok c env a b h = elim (Result-cases (perform c env.now (payment_of a))) [
  | inl (p, e) ↦ ground (arith, perform-execute c env a)
  | inr (x, e) ↦ ground (arith, perform-execute c env a)
]

perform-err :
    (c : Command) (env : Env) (a : PaymentAggregate) (x : Error)
    → execute c env a ≡ err x
    → (y : Error) × (perform c env.now (payment_of a) ≡ err y)
perform-err c env a x h = elim (Result-cases (perform c env.now (payment_of a))) [
  | inl (p, e) ↦ absurd (ground (arith, perform-execute c env a))
  | inr found ↦ found
]

perform_all-run :
    (cs : List (Command × Env)) (a : PaymentAggregate)
    → end_of (perform_all cs (payment_of a)) ≡ end_of_aggregate (run cs a)
unfolding perform_all run
perform_all-run [] a = refl
perform_all-run ((c, env) ∷ rest) a = elim (Result-cases (execute c env a)) [
  | inl (b, e) ↦ rw (e, perform-ok c env a b e) (perform_all-run rest b)
  | inr (x, e) ↦ let (y, refused) = perform-err c env a x e in rw (e, refused) refl
]

-- The view at the end, where there is one.
abbrev pub view_of : (Decimal → Text) → Result Payment → Option PaymentView
view_of printed (ok p) = some (payment_to_view printed p)
view_of printed (err e) = none

abbrev pub view_of_aggregate : (Decimal → Text) → Result PaymentAggregate → Option PaymentView
view_of_aggregate printed (ok a) = some (aggregate_to_view printed a)
view_of_aggregate printed (err e) = none

view_of-end :
    (printed : Decimal → Text) (r : Result Payment) (s : Result PaymentAggregate)
    → end_of r ≡ end_of_aggregate s
    → view_of printed r ≡ view_of_aggregate printed s
unfolding payment_to_view aggregate_to_view
view_of-end printed (ok p) (ok a) h = ground arith
view_of-end printed (ok p) (err e) h = ground arith
view_of-end printed (err e) (ok a) h = ground arith
view_of-end printed (err e) (err x) h = refl

-- The methods of the older payment, called one after the other, raise where the commands of the
-- aggregate raise; where none does, the older payment ends as the aggregate does, its version and
-- events aside, and both show the same view.
pub lives_agree :
    (printed : Decimal → Text) (cs : List (Command × Env)) (a : PaymentAggregate)
    → (end_of (perform_all cs (payment_of a)) ≡ end_of_aggregate (run cs a))
      × (view_of printed (perform_all cs (payment_of a)) ≡ view_of_aggregate printed (run cs a))
lives_agree printed cs a =
    let same = perform_all-run cs a in
    (same, view_of-end printed (perform_all cs (payment_of a)) (run cs a) same)

-- The payment that a factory of the aggregate makes, or its exception.
abbrev pub made_of : Result PaymentAggregate → Result Payment
made_of (ok a) = ok (payment_of a)
made_of (err e) = err e

-- For a request without an id, the older refund is made, or refused with the same exception, as the
-- refund of the aggregate is; and where the request has a description that is not empty and a
-- method other than the wallet, so are the deposit and the withdrawal.
pub factories_agree :
    (env : Env) (r : PaymentRequest) (original : Uuid) (d : Text)
    → r.payment_id ≡ none
    → r.description ≡ some d
    → is_empty d ≡ false
    → is_wallet r.payment_method ≡ false
    → (make_refund env r original ≡ made_of (create_refund env r original))
      × (make_deposit env r ≡ made_of (create_deposit env r))
      × (make_withdrawal env r ≡ made_of (create_withdrawal env r))
unfolding make_refund make_deposit make_withdrawal create_refund create_deposit create_withdrawal
factories_agree env r original d no_id described full not_wallet = (
  ground (arith, upper_idem r.currency, no_id, described, full),
  ground (arith, upper_idem r.currency, no_id, described, full, not_wallet),
  ground (arith, upper_idem r.currency, no_id, described, full, not_wallet),
)
