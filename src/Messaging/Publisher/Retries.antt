-- ===== src/Messaging/Publisher/Retries.antt =====
-- Failed deliveries are counted, and the last one that is allowed ends the event
-- (src/messaging/kafka/outbox_publisher.py).
use microservice_payment_ser.Base.{
  ℕ, ◌+◌, ◌<◌, ◌≤◌, ◌≡◌, refl, true, false, List, [], ◌∷◌, any, arith, Bool-cases, inl, inr, map,
  ◌∙◌, some, leb, ltb, length,
}
use microservice_payment_ser.Base.Text.{Text}
use microservice_payment_ser.Errors.{Uuid, Time, ok}
use microservice_payment_ser.Action.{>>-ok}
use microservice_payment_ser.Outbox.{
  OutboxRow, Outbox, has_id, update_rows, is_unprocessed, mark_as_failed, is_worn, largest_count,
}
use microservice_payment_ser.Messaging.Publisher.{
  Report, serve, delivery_report, get_event, kill, retire,
}

any-get_event :
    (u : Uuid) (rows : Outbox) (r : OutboxRow)
    → get_event u rows ≡ some r
    → any (has_id u) rows ≡ true
unfolding get_event
any-get_event u [] r h = cc
any-get_event u (x ∷ rows) r h = ground (arith, any-get_event u rows r)

is_worn-get_event :
    (u : Uuid) (rows : Outbox) (r : OutboxRow)
    → get_event u rows ≡ some r
    → r.retry_count < largest_count
    → is_worn u rows ≡ false
unfolding get_event
is_worn-get_event u [] r h room = refl
is_worn-get_event u (x ∷ rows) r h room = ground (arith, is_worn-get_event u rows r)

get_event-update_rows :
    (u : Uuid) (change : OutboxRow → OutboxRow) (rows : Outbox) (r : OutboxRow)
    → ((x : OutboxRow) → (change x).id ≡ x.id)
    → get_event u rows ≡ some r
    → get_event u (update_rows (has_id u) change rows) ≡ some (change r)
unfolding get_event update_rows
get_event-update_rows u change [] r keeps h = cc
get_event-update_rows u change (x ∷ rows) r keeps h =
    ground (arith, keeps x, get_event-update_rows u change rows r keeps)

abbrev failed_once : Text → OutboxRow → OutboxRow
failed_once error r = record r { error_message = some error; retry_count = r.retry_count + 1 }

abbrev pub failing : Uuid → Text × Time → Report
failing u (error, now) = record { event_id = u; error = some error; now = now }

mark_as_failed-found :
    (u : Uuid) (error : Text) (rows : Outbox) (r : OutboxRow)
    → get_event u rows ≡ some r
    → r.retry_count < largest_count
    → (mark_as_failed u error rows ≡ (ok tt, update_rows (has_id u) (failed_once error) rows))
      × (get_event u (update_rows (has_id u) (failed_once error) rows) ≡ some (failed_once error r))
unfolding mark_as_failed
mark_as_failed-found u error rows r h room = (
  rw (is_worn-get_event u rows r h room, any-get_event u rows r h),
  get_event-update_rows u (failed_once error) rows r (λ x. refl) h,
)

-- The row of an event, and whether it is finished as its count says.
abbrev IsCounted : ℕ → Uuid → ℕ → Outbox → Type 0
IsCounted retries u count rows =
    (r : OutboxRow) × (get_event u rows ≡ some r)
    × (r.retry_count ≡ count)
    × (is_unprocessed r ≡ ltb count retries)

retire-IsCounted :
    (retries : ℕ) (u : Uuid) (now : Time) (rows : Outbox) (r : OutboxRow)
    → get_event u rows ≡ some r
    → (ltb r.retry_count retries ≡ true → is_unprocessed r ≡ true)
    → (rows' : Outbox) × (retire retries u now rows ≡ (ok tt, rows'))
      × IsCounted retries u r.retry_count rows'
unfolding retire
retire-IsCounted retries u now rows r h fresh = elim (Bool-cases (leb retries r.retry_count)) [
  | inl e ↦ (
    update_rows (has_id u) (kill now) rows,
    rw (h, e),
    (kill now r, get_event-update_rows u (kill now) rows r (λ x. refl) h, refl, ground arith),
  )
  | inr e ↦ (rows, rw (h, e), (r, h, refl, ground (arith, fresh)))
]

delivery_report-IsCounted :
    (retries : ℕ) (u : Uuid) (report : Text × Time) (count : ℕ) (rows : Outbox)
    → IsCounted retries u count rows
    → count < largest_count
    → (rows' : Outbox) × (delivery_report retries (failing u report) rows ≡ (ok tt, rows'))
      × IsCounted retries u (count + 1) rows'
unfolding delivery_report
delivery_report-IsCounted retries u (error, now) count rows (r, found, counted, live) room =
    let (marked, kept) = mark_as_failed-found u error rows r found (omega (arith, room, counted)) in
    let rows1 = update_rows (has_id u) (failed_once error) rows in
    let (rows2, retired, (r2, found2, counted2, live2)) =
      retire-IsCounted retries u now rows1 (failed_once error r) kept
        (λ few. ground (arith, few, live, counted)) in
    (
      rows2,
      >>-ok (mark_as_failed u error) (retire retries u now) rows rows1 marked ∙ retired,
      (r2, found2, omega (arith, counted2, counted), ground (arith, live2, counted, counted2)),
    )

-- Failed deliveries of an event of the table, no more than its count has room for in its column, are
-- all recorded: each adds one to the count, and the event is still to be published exactly as long
-- as the count is below the limit, provided that this was so before.
pub failures_counted :
    (retries : ℕ) (u : Uuid) (reports : List (Text × Time)) (rows : Outbox) (r : OutboxRow)
    → get_event u rows ≡ some r
    → is_unprocessed r ≡ ltb r.retry_count retries
    → r.retry_count + length reports ≤ largest_count
    → (rows' : Outbox) × (serve retries (map (failing u) reports) rows ≡ (ok tt, rows'))
      × (r' : OutboxRow) × (get_event u rows' ≡ some r')
      × (r'.retry_count ≡ r.retry_count + length reports)
      × (is_unprocessed r' ≡ ltb (r.retry_count + length reports) retries)
unfolding serve
failures_counted retries u [] rows r found live room =
    (rows, refl, r, found, omega arith, ground (arith, live))
failures_counted retries u (report ∷ reports) rows r found live room =
    let (rows1, first, (r1, found1, counted1, live1)) =
      delivery_report-IsCounted retries u report r.retry_count rows (r, found, refl, live)
        (omega (arith, room)) in
    let (rows2, rest, r2, found2, counted2, live2) =
      failures_counted retries u reports rows1 r1 found1 (ground (arith, live1, counted1))
        (omega (arith, room, counted1)) in
    (
      rows2,
      >>-ok (delivery_report retries (failing u report)) (serve retries (map (failing u) reports))
            rows rows1 first
          ∙ rest,
      r2,
      found2,
      omega (arith, counted2, counted1),
      ground (arith, live2, counted1),
    )
