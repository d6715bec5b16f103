-- ===== src/Action.antt =====
-- Code that changes a database and may raise. What was written before a raise stays written, unless
-- a transaction rolls it back.
use microservice_payment_ser.Base.{◌≡◌, ap, Bool, true, false}
use microservice_payment_ser.Errors.{Error, Result, ok, err}

abbrev pub Action : Type 0 → Type 0 → Type 0
Action S A = S → Result A × S

module _ {S A : Type 0} where
  abbrev pub pure : A → Action S A
  pure a s = (ok a, s)

  abbrev pub raise : Error → Action S A
  raise e s = (err e, s)

  abbrev pub lift : Result A → Action S A
  lift r s = (r, s)

  abbrev pub gets : (S → A) → Action S A
  gets f s = (ok (f s), s)

  -- `with transaction.atomic()`: an exception restores the database
  abbrev pub atomic : Action S A → Action S A
  atomic m s = let (r, t) = m s in elim r [ ok a ↦ (ok a, t) | err e ↦ (err e, s) ]

  -- `try: m except Exception as exc: raise f(exc)`
  abbrev pub rethrow : (Error → Error) → Action S A → Action S A
  rethrow f m s = let (r, t) = m s in elim r [ ok a ↦ (ok a, t) | err e ↦ (err (f e), t) ]

abbrev pub modify : {S : Type 0} → (S → S) → Action S (Unit {0})
modify f s = (ok tt, f s)

infixl 5 ◌>>=◌ ◌>>◌
abbrev pub ◌>>=◌ : {S A B : Type 0} → Action S A → (A → Action S B) → Action S B
◌>>=◌ m f s = let (r, t) = m s in elim r [ ok a ↦ f a t | err e ↦ (err e, t) ]

abbrev pub ◌>>◌ : {S B : Type 0} → Action S (Unit {0}) → Action S B → Action S B
m >> k = m >>= λ _. k

-- `if test: raise e`
abbrev pub raise_when : {S : Type 0} → Bool → Error → Action S (Unit {0})
raise_when true e s = (err e, s)
raise_when false e s = (ok tt, s)

-- How a call goes on when a part of it is known.
module _ {S : Type 0} where
  abbrev continue : {A B : Type 0} → (A → Action S B) → Result A × S → Result B × S
  continue f x = elim x.0 [ ok a ↦ f a x.1 | err e ↦ (err e, x.1) ]

  pub >>-ok :
      {B : Type 0} (m : Action S (Unit {0})) (k : Action S B) (s t : S)
      → m s ≡ (ok tt, t)
      → (m >> k) s ≡ k t
  >>-ok m k s t h = ap (continue (λ _. k)) h

  pub >>-err :
      {B : Type 0} (m : Action S (Unit {0})) (k : Action S B) (s t : S) (e : Error)
      → m s ≡ (err e, t)
      → (m >> k) s ≡ (err e, t)
  >>-err m k s t e h = ap (continue (λ _. k)) h

  abbrev roll_back : {A : Type 0} → S → Result A × S → Result A × S
  roll_back s x = elim x.0 [ ok a ↦ (ok a, x.1) | err e ↦ (err e, s) ]

  abbrev rename : {A : Type 0} → (Error → Error) → Result A × S → Result A × S
  rename f x = elim x.0 [ ok a ↦ (ok a, x.1) | err e ↦ (err (f e), x.1) ]

  pub atomic-ok :
      {A : Type 0} (m : Action S A) (s t : S) (a : A) → m s ≡ (ok a, t) → atomic m s ≡ (ok a, t)
  atomic-ok m s t a h = ap (roll_back s) h

  pub atomic-err :
      {A : Type 0} (m : Action S A) (s t : S) (e : Error)
      → m s ≡ (err e, t)
      → atomic m s ≡ (err e, s)
  atomic-err m s t e h = ap (roll_back s) h

  pub rethrow-ok :
      {A : Type 0} (f : Error → Error) (m : Action S A) (s t : S) (a : A)
      → m s ≡ (ok a, t)
      → rethrow f m s ≡ (ok a, t)
  rethrow-ok f m s t a h = ap (rename f) h
