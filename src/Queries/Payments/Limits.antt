-- ===== src/Queries/Payments/Limits.antt =====
-- How much the listings show (src/apis/payment/query_views.py).
use microservice_payment_ser.Base.{
  ℕ, ◌≤◌, ◌≡◌, ◌⊎◌, Bool, Option, List, length, filter_by, arith, subst, ◌==◌, Bool-cases, inl, inr,
}
use microservice_payment_ser.Base.Text.{Text}
use microservice_payment_ser.Base.Decimal.{ℤ, pos, negsuc, pos_part, Decimal}
use microservice_payment_ser.Base.Json.{Json, Members, Codec, num}
use microservice_payment_ser.Errors.{Uuid, Error, Result, ok, err, map_err, Result-cases}
use microservice_payment_ser.Executor.{PaymentView}
use microservice_payment_ser.Http.Requests.{
  Request, Reading, answered, uncaught, value, ◌>>=◌, read_request, or_uncaught, uuid_from,
}
use microservice_payment_ser.Queries.Pages.{slice, drop, length-take_le}
use microservice_payment_ser.Queries.Payments.{
  PaymentQueryRepository, wallet_matches, user_matches, ReadTable, TimedRow, paginated,
  by_wallet_id, by_user_id, django_repository, newest_first, to_view,
}
use microservice_payment_ser.Queries.Payments.Listing.{length-map}
use microservice_payment_ser.Queries.Payments.Service.{
  with_owners, get_payments_by_wallet, get_payments_by_user, get_payments_by_wallet_with_owner,
  get_payments_by_user_with_owner, owner_of,
}
use microservice_payment_ser.Queries.Payments.Views.{
  Answer, shown, refused, capped, concluded, field_or, run_reading, page_for, user_asked,
  wallet_id_of, needs_wallet_id, wallet_asked, bad_json, list_payments_by_user,
  list_payments_by_wallet,
}

-- A predicate on what a reading goes on with.
abbrev Reads : {A : Type 0} → (A → Type 0) → Reading A → Type 0
Reads Q (answered r) = Unit {0}
Reads Q (uncaught e) = Unit {0}
Reads Q (value a) = Q a

Reads->>= :
    {A B : Type 0} (Q : B → Type 0) (r : Reading A) (f : A → Reading B)
    → ((a : A) → Reads Q (f a))
    → Reads Q (r >>= f)
Reads->>= Q (answered r) f h = tt
Reads->>= Q (uncaught e) f h = tt
Reads->>= Q (value a) f h = h a

capped_le : (x : ℤ) → pos_part (capped x) ≤ 500
capped_le (pos n) = ground arith
capped_le (negsuc n) = omega arith

-- A result has at most so many elements.
abbrev IsAtMost : {A : Type 0} → ℕ → Result (List A) → Type 0
IsAtMost n (ok xs) = length xs ≤ n
IsAtMost n (err e) = Unit {0}

abbrev ShowsAtMost : {A : Type 0} → ℕ → Result (Answer (List A)) → Type 0
ShowsAtMost n (ok (shown xs)) = length xs ≤ n
ShowsAtMost n (ok (refused r)) = Unit {0}
ShowsAtMost n (err e) = Unit {0}

IsAtMost-map_err :
    {A : Type 0} (n : ℕ) (f : Error → Error) (r : Result (List A))
    → IsAtMost n r
    → IsAtMost n (map_err f r)
IsAtMost-map_err n f (ok xs) h = h
IsAtMost-map_err n f (err e) h = tt

ShowsAtMost-concluded :
    {A : Type 0} (n : ℕ) (r : Result (List A))
    → IsAtMost n r
    → n ≤ 500
    → ShowsAtMost 500 (concluded r)
ShowsAtMost-concluded n (ok xs) few h = omega (arith, few, h)
ShowsAtMost-concluded n (err e) few h = tt

module _ (normalized : Decimal → Text) (table : ReadTable) where
  IsAtMost-paginated :
      (test : TimedRow → Bool) (limit offset : ℕ)
      → IsAtMost limit (paginated normalized test table (pos limit) (pos offset))
  IsAtMost-paginated test limit offset = elim (Bool-cases (limit == 0)) [
    | inl e ↦ rw e (omega arith)
    | inr e ↦
        let rows = slice offset limit (newest_first normalized (filter_by test table)) in
        rw e (
          omega (
            arith,
            length-map (to_view normalized) rows,
            length-take_le limit (drop offset (newest_first normalized (filter_by test table))),
          ))
  ]

  module _ {User : Type 0} (c : Codec) (int : Json → Result ℤ)
      (get_user_by_id : Uuid → Result User) where
    abbrev repo : PaymentQueryRepository
    repo = django_repository normalized table

    abbrev Shown : Type 0
    Shown = PaymentView × Option User

    IsAtMost-with_owners :
        (n : ℕ) (wrap : Error → Error) (r : Result (List PaymentView))
        → IsAtMost n r
        → IsAtMost n (with_owners repo get_user_by_id wrap r)
    IsAtMost-with_owners n wrap (ok views) h =
        omega (arith, length-map (owner_of repo get_user_by_id) views, h)
    IsAtMost-with_owners n wrap (err e) h = tt

    IsAtMost-wallet :
        (u : Uuid) (limit offset : ℤ)
        → IsAtMost
            (pos_part limit)
            (get_payments_by_wallet_with_owner repo get_user_by_id u limit offset)
    unfolding get_payments_by_wallet_with_owner get_payments_by_wallet by_wallet_id
    IsAtMost-wallet u limit offset =
        let found =
          by_wallet_id normalized table u (pos (pos_part limit)) (pos (pos_part offset)) in
        IsAtMost-with_owners (pos_part limit) _ _ (
          IsAtMost-map_err (pos_part limit) _ found
            (IsAtMost-paginated (wallet_matches normalized u) (pos_part limit) (pos_part offset)))

    IsAtMost-user :
        (u : Uuid) (limit offset : ℤ)
        → IsAtMost
            (pos_part limit)
            (get_payments_by_user_with_owner repo get_user_by_id u limit offset)
    unfolding get_payments_by_user_with_owner get_payments_by_user by_user_id
    IsAtMost-user u limit offset =
        IsAtMost-with_owners (pos_part limit) _ _
          (IsAtMost-paginated (user_matches normalized u) (pos_part limit) (pos_part offset))

    abbrev HasLimit : Uuid × (ℤ × ℤ) → Type 0
    HasLimit x = pos_part x.1.0 ≤ 500

    ShowsAtMost-run_reading :
        (run : Uuid × (ℤ × ℤ) → Result (List Shown)) (r : Reading (Uuid × (ℤ × ℤ)))
        → ((x : Uuid × (ℤ × ℤ)) → IsAtMost (pos_part x.1.0) (run x))
        → Reads HasLimit r
        → ShowsAtMost 500 (run_reading c int repo get_user_by_id run r)
    ShowsAtMost-run_reading run (answered r) few h = tt
    ShowsAtMost-run_reading run (uncaught e) few h = tt
    ShowsAtMost-run_reading run (value x) few h =
        ShowsAtMost-concluded (pos_part x.1.0) (run x) (few x) h

    Reads-page : (u : Uuid) (m : Members) → Reads HasLimit (page_for c int repo get_user_by_id m u)
    Reads-page u m = elim (Result-cases (int (field_or "limit" (num 50) m))) [
      | inr (e, h) ↦ rw h tt
      | inl (limit, h) ↦ elim (Result-cases (int (field_or "offset" (num 0) m))) [
        | inr (e, k) ↦ rw (h, k) tt
        | inl (offset, k) ↦ rw (h, k) (capped_le limit)
      ]
    ]

    Reads-user_asked :
        (x : Json × Members) → Reads HasLimit (user_asked c int repo get_user_by_id x)
    Reads-user_asked x =
        Reads->>= HasLimit (or_uncaught (uuid_from c x.0)) (page_for c int repo get_user_by_id x.1)
          (λ u. Reads-page u x.1)

    Reads-wallet_asked :
        (x : Json × Members) → Reads HasLimit (wallet_asked c int repo get_user_by_id x)
    Reads-wallet_asked x =
        let page = page_for c int repo get_user_by_id x.1 in
        let id = wallet_id_of c int repo get_user_by_id x.1 in
        Reads->>= HasLimit (needs_wallet_id c int repo get_user_by_id x.1) (λ _. id >>= page)
          (λ t. Reads->>= HasLimit id page (λ u. Reads-page u x.1))

    -- Whatever limit and offset a client asks for, the listings of a wallet and of a user show at
    -- most 500 payments.
    pub listings_bounded :
        (q : Request) (xs : List (PaymentView × Option User))
        → (list_payments_by_wallet c int repo get_user_by_id q ≡ ok (shown xs))
          ⊎ (list_payments_by_user c int repo get_user_by_id q ≡ ok (shown xs))
        → length xs ≤ 500
    unfolding list_payments_by_wallet list_payments_by_user
    listings_bounded q xs (inl e) = subst (ShowsAtMost 500) e (
        ShowsAtMost-run_reading _ _ (λ x. IsAtMost-wallet x.0 x.1.0 x.1.1)
          (Reads->>= HasLimit (read_request bad_json q) (wallet_asked c int repo get_user_by_id)
            Reads-wallet_asked))
    listings_bounded q xs (inr e) = subst (ShowsAtMost 500) e (
        ShowsAtMost-run_reading _ _ (λ x. IsAtMost-user x.0 x.1.0 x.1.1)
          (Reads->>= HasLimit (read_request bad_json q) (user_asked c int repo get_user_by_id)
            Reads-user_asked))
