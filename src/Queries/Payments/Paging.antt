-- ===== src/Queries/Payments/Paging.antt =====
-- A client that turns the pages of a listing sees every payment once
-- (src/application/payment/services/payment_query_service.py over
-- src/infrastructure/repos/payment/payment_query_repo.py).
use microservice_payment_ser.Base.{
  ℕ, zero, suc, ◌+◌, ◌*◌, ◌<◌, ◌≤◌, ◌≡◌, refl, Bool, true, ◌&&◌, List, [], ◌++◌, map, length,
  filter_by, count_by, count_by-filter_by, arith, ◌∙◌, ap, sym, ◌==◌, Bool-cases, inl, inr,
}
use microservice_payment_ser.Base.Text.{Text}
use microservice_payment_ser.Base.Decimal.{pos, Decimal}
use microservice_payment_ser.Errors
use microservice_payment_ser.Errors.{Uuid, Time, Result, ok, err}
use microservice_payment_ser.Executor.{PaymentView}
use microservice_payment_ser.Queries.Pages.{
  count_by-order_rows, length-count_by, slice, pages, pages_all,
}
use microservice_payment_ser.Queries.Payments.{
  TimedRow, ReadTable, PaymentQueryRepository, to_view, newest_first, wallet_matches, by_wallet_id,
  django_repository,
}
use microservice_payment_ser.Queries.Payments.Service.{get_payments_by_wallet}
use microservice_payment_ser.Queries.Payments.Listing.{
  map-append, IsNewestFirst, IsNewestFirst-map, AreSorted, AreSorted-order_rows, count_by-map,
  after, of_time,
}

-- So many pages of the payments of a wallet, from a page on, as a client asks for them.
unfoldable pub wallet_pages : PaymentQueryRepository → Uuid → ℕ → ℕ → ℕ → Result (List PaymentView)
wallet_pages repo u zero size i = ok []
wallet_pages repo u (suc n) size i =
    Errors.◌>>=◌ (get_payments_by_wallet repo u (pos size) (pos (i * size)))
      λ page. Errors.◌>>=◌ (wallet_pages repo u n size (i + 1)) λ rest. ok (page ++ rest)

module _ (normalized : Decimal → Text) (table : ReadTable) (u : Uuid) where
  abbrev mine : ReadTable
  mine = filter_by (wallet_matches normalized u) table

  abbrev listed : ReadTable
  listed = newest_first normalized mine

  page_of :
      (size offset : ℕ)
      → 0 < size
      → get_payments_by_wallet (django_repository normalized table) u (pos size) (pos offset)
        ≡ ok (map (to_view normalized) (slice offset size listed))
  unfolding get_payments_by_wallet by_wallet_id
  page_of size offset some_rows = elim (Bool-cases (size == 0)) [
    | inl e ↦ absurd (ground (arith, e, some_rows))
    | inr e ↦ rw e refl
  ]

  wallet_pages-pages :
      (n size i : ℕ)
      → 0 < size
      → wallet_pages (django_repository normalized table) u n size i
        ≡ ok (map (to_view normalized) (pages n size i listed))
  unfolding wallet_pages pages
  wallet_pages-pages zero size i some_rows = refl
  wallet_pages-pages (suc n) size i some_rows =
      rw (page_of size (i * size) some_rows, wallet_pages-pages n size (i + 1) some_rows)
        (ap (λ (vs : List PaymentView). ok vs)
          (sym (
            map-append (to_view normalized) (slice (i * size) size listed)
              (pages n size (i + 1) listed))))

  length-listed : length listed ≡ length mine
  length-listed = omega (
    arith,
    length-count_by listed,
    count_by-order_rows (after normalized) (λ r. true) [] mine,
    length-count_by mine,
  )

  count_by-listed : (q : TimedRow → Bool) → count_by q listed ≡ count_by q mine
  count_by-listed q = omega (arith, count_by-order_rows (after normalized) q [] mine)

  -- The pages of a wallet, no two of whose payments are of one time, of any positive size and as many
  -- as its payments fill, go through one after the other, show every payment of the wallet exactly
  -- as often as the table has it and no other payment, and are newest first throughout.
  pub wallet_pages_all :
      (n size : ℕ)
      → 0 < size
      → length (filter_by (wallet_matches normalized u) table) ≤ n * size
      → ((at : Time)
          → count_by (λ r. r.created_at == at) (filter_by (wallet_matches normalized u) table) ≤ 1)
      → (views : List PaymentView) × (wallet_pages (django_repository normalized table) u n size 0
          ≡ ok views)
        × IsNewestFirst views
        × ((test : PaymentView → Bool)
            → count_by test views
              ≡ count_by (λ r. wallet_matches normalized u r && test (to_view normalized r)) table)
  unfolding AreSorted
  wallet_pages_all n size some_rows enough no_ties =
      let whole : pages n size 0 listed ≡ listed =
        pages_all n size listed (omega (arith, length-listed, enough)) in
      let few : (at : Time) → count_by (of_time normalized at) listed ≤ 1 =
        λ at. omega (arith, count_by-listed (of_time normalized at), no_ties at) in
      (
        map (to_view normalized) listed,
        wallet_pages-pages n size 0 some_rows
            ∙ ap (λ (rows : ReadTable). ok (map (to_view normalized) rows)) whole,
        IsNewestFirst-map normalized listed (AreSorted-order_rows normalized [] mine tt) few,
        λ test.
            count_by-map normalized test listed
            ∙ count_by-listed (λ r. test (to_view normalized r))
            ∙ count_by-filter_by (wallet_matches normalized u) (λ r. test (to_view normalized r))
                table,
      )
