-- ===== src/Queries/Payments.antt =====
-- `DjangoPaymentQueryRepository` of src/infrastructure/repos/payment/payment_query_repo.py over the
-- read model (src/infrastructure/apps/payment/models.py), with the mapper of
-- src/infrastructure/apps/payment/mappers.py.
use microservice_payment_ser.Base.{
  ℕ, ◌+◌, ◌*◌, ◌-◌, ◌^◌, Bool, true, false, ◌&&◌, ◌||◌, ◌==◌, leb, ltb, Option, none, some, List,
  [], ◌∷◌, any, map, filter_by, if◌then◌else◌,
}
use microservice_payment_ser.Base.Text.{Text, codes, text_eq}
use microservice_payment_ser.Base.Decimal.{
  ℤ, pos, negsuc, pos_part, neg_part, Decimal, decimal_zero,
}
use microservice_payment_ser.Errors.{Uuid, Time, Result, ok, err, payment_not_found, value_error}
use microservice_payment_ser.Payment.Types.{
  PaymentStatus, pending, processing, succeeded, failed, cancelled, refunded,
}
use microservice_payment_ser.Projection.{ReadModel}
use microservice_payment_ser.Executor.{PaymentView}
use microservice_payment_ser.Queries.Pages.{slice, order_rows}
pub mod Service
pub mod Views
pub mod Listing
pub mod Paging
pub mod Limits
pub mod Fetch

-- A row of `PaymentReadModel` with the timestamps that Django keeps.
pub record TimedRow : Type 0 where
  pub row : ReadModel
  pub created_at : Time
  pub updated_at : Time

abbrev pub ReadTable : Type 0
ReadTable = List TimedRow

-- `PaymentStatus.name`, as the projector stores it
abbrev pub status_name : PaymentStatus → Text
status_name pending = codes "PENDING"
status_name processing = codes "PROCESSING"
status_name succeeded = codes "SUCCEEDED"
status_name failed = codes "FAILED"
status_name cancelled = codes "CANCELLED"
status_name refunded = codes "REFUNDED"

-- The difference of two natural numbers.
abbrev difference : ℕ → ℕ → ℤ
difference p n = if leb n p then pos (p - n) else negsuc (n - p - 1)

abbrev positive_at : Decimal → ℕ → ℕ
positive_at d scale = pos_part d.coefficient * 10 ^ scale

abbrev negative_at : Decimal → ℕ → ℕ
negative_at d scale = neg_part d.coefficient * 10 ^ scale

-- `a + b`, at the sum of the scales
abbrev pub decimal_add : Decimal → Decimal → Decimal
decimal_add a b = record {
  coefficient =
      difference (positive_at a b.scale + positive_at b a.scale)
        (negative_at a b.scale + negative_at b a.scale);
  scale = a.scale + b.scale;
}

-- What the queries of `PaymentQueryRepository` promise to return or raise; limits and offsets are
-- integers.
pub record PaymentQueryRepository : Type 0 where
  pub by_id : Uuid → Result PaymentView
  pub by_wallet_id : Uuid → ℤ → ℤ → Result (List PaymentView)
  pub by_user_id : Uuid → ℤ → ℤ → Result (List PaymentView)
  pub by_reference_id : Uuid → Result (List PaymentView)
  pub total_by_wallet : Uuid → Option Text → Result Decimal
  pub exists : Uuid → Result Bool

-- `str(amount.normalize())` is a parameter: it writes a multiple of ten with an exponent.
module _ (normalized : Decimal → Text) where
  -- `to_view`
  unfoldable pub to_view : TimedRow → PaymentView
  to_view r = record {
    payment_id = r.row.id;
    wallet_id = r.row.wallet_id;
    user_id = r.row.user_id;
    amount = normalized r.row.amount;
    currency = r.row.currency;
    payment_type = r.row.payment_type;
    payment_method = r.row.payment_method;
    status = status_name r.row.status;
    reference_id = r.row.reference_id;
    description = r.row.description;
    created_at = r.created_at;
    updated_at = r.updated_at;
  }

  -- `order_by('-created_at')`
  abbrev pub newer : TimedRow → TimedRow → Bool
  newer r x = ltb x.created_at r.created_at

  abbrev pub newest_first : ReadTable → ReadTable
  newest_first = order_rows (λ y x. newer x y) []

  abbrev is_negative : ℤ → Bool
  is_negative (pos n) = false
  is_negative (negsuc n) = true

  -- The body of `by_wallet_id` and `by_user_id`.
  abbrev pub paginated : (TimedRow → Bool) → ReadTable → ℤ → ℤ → Result (List PaymentView)
  paginated test table limit offset =
      if is_negative limit || is_negative offset
      then err (value_error "Pagination parameters must be non-negative")
      else if pos_part limit == 0
      then ok []
      else ok (
          map to_view
            (slice (pos_part offset) (pos_part limit) (newest_first (filter_by test table))))

  abbrev pub wallet_matches : Uuid → TimedRow → Bool
  wallet_matches u r = r.row.wallet_id == u

  abbrev pub user_matches : Uuid → TimedRow → Bool
  user_matches u r = r.row.user_id == u

  abbrev reference_matches : Uuid → TimedRow → Bool
  reference_matches u r = elim r.row.reference_id [ none ↦ false | some v ↦ v == u ]

  unfoldable pub by_wallet_id : ReadTable → Uuid → ℤ → ℤ → Result (List PaymentView)
  unfolding order_rows to_view
  by_wallet_id table u = paginated (wallet_matches u) table

  unfoldable pub by_user_id : ReadTable → Uuid → ℤ → ℤ → Result (List PaymentView)
  unfolding order_rows to_view
  by_user_id table u = paginated (user_matches u) table

  unfoldable pub by_reference_id : ReadTable → Uuid → Result (List PaymentView)
  unfolding order_rows to_view
  by_reference_id table u = ok (map to_view (newest_first (filter_by (reference_matches u) table)))

  unfoldable pub find_view : Uuid → ReadTable → Option PaymentView
  unfolding to_view
  find_view u [] = none
  find_view u (r ∷ rows) = if r.row.id == u then some (to_view r) else find_view u rows

  unfoldable pub by_id : ReadTable → Uuid → Result PaymentView
  unfolding find_view
  by_id table u = elim (find_view u table) [ none ↦ err (payment_not_found u) | some v ↦ ok v ]

  unfoldable pub sum_amounts : ReadTable → Decimal
  sum_amounts [] = decimal_zero
  sum_amounts (r ∷ rows) = decimal_add r.row.amount (sum_amounts rows)

  abbrev has_status : Option Text → TimedRow → Bool
  has_status none r = true
  has_status (some s) r = text_eq (status_name r.row.status) s

  -- `get_total_amount_by_wallet`
  unfoldable pub get_total_amount_by_wallet : ReadTable → Uuid → Option Text → Result Decimal
  unfolding sum_amounts
  get_total_amount_by_wallet table u status =
      ok (sum_amounts (filter_by (has_status status) (filter_by (wallet_matches u) table)))

  unfoldable pub exists : ReadTable → Uuid → Result Bool
  exists table u = ok (any (λ r. r.row.id == u) table)

  -- The repository over a table.
  abbrev pub django_repository : ReadTable → PaymentQueryRepository
  django_repository table = record {
    by_id = by_id table;
    by_wallet_id = by_wallet_id table;
    by_user_id = by_user_id table;
    by_reference_id = by_reference_id table;
    total_by_wallet = get_total_amount_by_wallet table;
    exists = exists table;
  }
