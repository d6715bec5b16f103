-- ===== src/Queries/Keys/ByUser.antt =====
-- What the queries of idempotency keys find
-- (src/application/idempotency/services/idempotency_query_services.py).
use microservice_payment_ser.Base.{
  ℕ, ◌+◌, ◌≤◌, ◌≡◌, refl, Bool, true, ◌&&◌, [], ◌∷◌, ◌++◌, map, filter_by, length, take, count_by,
  count_by-filter_by, count_by-and_le, ltb, arith, ◌∙◌, ap, inl, inr, ◌⊎◌,
}
use microservice_payment_ser.Base.Text.{is_blank}
use microservice_payment_ser.Errors.{Uuid, ok}
use microservice_payment_ser.Idempotency.Key.{
  IdempotencyKey, IdempotencyStatus, pending, completed, failed, post_init,
}
use microservice_payment_ser.Idempotency.Store.{Keys}
use microservice_payment_ser.Queries.Pages.{count_by-order_rows, length-count_by, take-whole}
use microservice_payment_ser.Queries.Keys.{
  with_status, has_owner, newest_keys, to_domain_all, get_by_status, count_by_user,
  get_keys_by_user, scan_limit,
}

abbrev has_blank : IdempotencyKey → Bool
has_blank k = is_blank k.key

-- A key as `to_domain` makes it.
abbrev pub made : IdempotencyKey → IdempotencyKey
made k = record k { updated_at = k.created_at }

to_domain_all-made : (ks : Keys) → count_by has_blank ks ≡ 0 → to_domain_all ks ≡ ok (map made ks)
unfolding to_domain_all post_init
to_domain_all-made [] h = refl
to_domain_all-made (k ∷ ks) h = ground (arith, h, to_domain_all-made ks)

count_by-append :
    (q : IdempotencyKey → Bool) (xs ys : Keys)
    → count_by q (xs ++ ys) ≡ count_by q xs + count_by q ys
count_by-append q [] ys = omega arith
count_by-append q (x ∷ xs) ys = ground (arith, count_by-append q xs ys)

count_by-map :
    (q : IdempotencyKey → Bool) (ks : Keys)
    → count_by q (map made ks) ≡ count_by (λ k. q (made k)) ks
count_by-map q [] = refl
count_by-map q (k ∷ ks) = ground (arith, count_by-map q ks)

status_cases : (st : IdempotencyStatus) → (st ≡ pending) ⊎ ((st ≡ completed) ⊎ (st ≡ failed))
status_cases pending = inl refl
status_cases completed = inr (inl refl)
status_cases failed = inr (inr refl)

count_by-statuses :
    (q : IdempotencyKey → Bool) (ks : Keys)
    → count_by (λ k. with_status pending k && q k) ks
        + (count_by (λ k. with_status completed k && q k) ks
            + count_by (λ k. with_status failed k && q k) ks)
      ≡ count_by q ks
count_by-statuses q [] = refl
count_by-statuses q (k ∷ ks) = elim (status_cases k.status) [
  | inl e ↦ rw e (ground (arith, count_by-statuses q ks))
  | inr (inl e) ↦ rw e (ground (arith, count_by-statuses q ks))
  | inr (inr e) ↦ rw e (ground (arith, count_by-statuses q ks))
]

module _ (table : Keys) where
  abbrev of_status : IdempotencyStatus → Keys
  of_status st = newest_keys (filter_by (with_status st) table)

  count_by-of_status :
      (q : IdempotencyKey → Bool) (st : IdempotencyStatus)
      → count_by q (of_status st) ≡ count_by (λ k. with_status st k && q k) table
  count_by-of_status q st = omega (
    arith,
    count_by-order_rows (λ (y : IdempotencyKey) k. ltb y.created_at k.created_at) q []
        (filter_by (with_status st) table),
    count_by-filter_by (with_status st) q table,
  )

  length-of_status :
      (st : IdempotencyStatus) → length (of_status st) ≡ length (filter_by (with_status st) table)
  length-of_status st = omega (
    arith,
    length-count_by (of_status st),
    count_by-order_rows (λ (y : IdempotencyKey) k. ltb y.created_at k.created_at) (λ k. true) []
        (filter_by (with_status st) table),
    length-count_by (filter_by (with_status st) table),
  )

  get_by_status-whole :
      (st : IdempotencyStatus)
      → count_by has_blank table ≡ 0
      → length (filter_by (with_status st) table) ≤ scan_limit
      → get_by_status table st scan_limit 0 ≡ ok (map made (of_status st))
  unfolding get_by_status
  get_by_status-whole st named few =
      let whole : take 1000 (of_status st) ≡ of_status st =
        take-whole 1000 (of_status st) (omega (arith, length-of_status st, few)) in
      ap to_domain_all whole
      ∙ to_domain_all-made (of_status st) (
          omega (
            arith,
            count_by-of_status has_blank st,
            count_by-and_le (with_status st) has_blank table,
            named,
          ))

  abbrev all_made : Keys
  all_made =
      map made (of_status pending)
      ++ (map made (of_status completed) ++ map made (of_status failed))

  count_by-made_of :
      (q : IdempotencyKey → Bool) (st : IdempotencyStatus)
      → count_by q (map made (of_status st)) ≡ count_by (λ k. with_status st k && q (made k)) table
  count_by-made_of q st = count_by-map q (of_status st) ∙ count_by-of_status (λ k. q (made k)) st

  count_by-all_made :
      (q : IdempotencyKey → Bool) → count_by q all_made ≡ count_by (λ k. q (made k)) table
  count_by-all_made q =
      rw
        (
          count_by-append q (map made (of_status pending))
              (map made (of_status completed) ++ map made (of_status failed)),
          count_by-append q (map made (of_status completed)) (map made (of_status failed)),
          count_by-made_of q pending,
          count_by-made_of q completed,
          count_by-made_of q failed,
        )
        (count_by-statuses (λ k. q (made k)) table)

  -- When every key has a text that is not blank, no status has more than 1000 keys, and the limit is
  -- at least the number of the keys of the user, the query for the keys of a user goes through and
  -- finds every key of the user exactly as often as the table has it, and no other key.
  pub get_keys_by_user_complete :
      (u : Uuid) (limit : ℕ)
      → count_by (λ k. is_blank k.key) table ≡ 0
      → length (filter_by (with_status pending) table) ≤ 1000
      → length (filter_by (with_status completed) table) ≤ 1000
      → length (filter_by (with_status failed) table) ≤ 1000
      → count_by_user table u ≤ limit
      → (ks : Keys) × (get_keys_by_user table u limit 0 ≡ ok ks)
        × ((test : IdempotencyKey → Bool)
            → count_by test ks ≡ count_by (λ k. has_owner u k && test (made k)) table)
  unfolding get_keys_by_user count_by_user
  get_keys_by_user_complete u limit named few_waiting few_done few_broken enough =
      let mine = filter_by (has_owner u) all_made in
      let found = newest_keys mine in
      let counted : (q : IdempotencyKey → Bool)
          → count_by q found ≡ count_by (λ k. has_owner u k && q (made k)) table =
        λ q. omega (
          arith,
          count_by-order_rows (λ (y : IdempotencyKey) k. ltb y.created_at k.created_at) q [] mine,
          count_by-filter_by (has_owner u) q all_made,
          count_by-all_made (λ k. has_owner u k && q k),
        ) in
      let size : length found ≤ limit = omega (
        arith,
        length-count_by found,
        counted (λ k. true),
        length-count_by (filter_by (has_owner u) table),
        count_by-filter_by (has_owner u) (λ k. true) table,
        enough,
      ) in
      (
        found,
        rw
            (
              get_by_status-whole pending named few_waiting,
              get_by_status-whole completed named few_done,
              get_by_status-whole failed named few_broken,
            )
            (ap (λ (ks : Keys). ok ks) (take-whole limit found size)),
        counted,
      )
