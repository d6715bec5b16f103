-- ===== src/Queries/Keys.antt =====
-- The queries of idempotency keys that only list:
-- src/infrastructure/repos/idempontency/idempotence_query_repo.py and
-- src/application/idempotency/services/idempotency_query_services.py. A list that holds a row which
-- the domain refuses raises.
use microservice_payment_ser.Base.{
  ℕ, ◌+◌, Bool, true, false, ltb, ◌&&◌, ◌==◌, List, [], ◌∷◌, ◌++◌, any, filter_by, length, count_by,
  Option, none, some, if◌then◌else◌,
}
use microservice_payment_ser.Base.Text.{Text, text_eq}
use microservice_payment_ser.Errors.{Uuid, Time, Result, ok, err, ◌>>=◌, key_not_found}
use microservice_payment_ser.Idempotency.Key.{
  IdempotencyKey, IdempotencyStatus, StoredResponse, pending, completed, failed, post_init,
  is_pending,
}
use microservice_payment_ser.Idempotency.Store.{Keys, matches, find}
use microservice_payment_ser.Queries.Pages.{slice, order_rows}
pub mod ByUser

-- `status.name`, as a number
abbrev pub status_number : IdempotencyStatus → ℕ
status_number pending = 0
status_number completed = 1
status_number failed = 2

abbrev pub with_status : IdempotencyStatus → IdempotencyKey → Bool
with_status st k = status_number k.status == status_number st

abbrev pub has_owner : Uuid → IdempotencyKey → Bool
has_owner u k = k.user_id == u

-- `order_by('-created_at')` and `sorted(..., reverse=True)`
abbrev pub newest_keys : Keys → Keys
newest_keys = order_rows (λ y k. ltb y.created_at k.created_at) []

-- `order_by('expires_at')`
abbrev soonest_keys : Keys → Keys
soonest_keys = order_rows (λ y k. ltb k.expires_at y.expires_at) []

-- `[to_domain(m) for m in orm_models]`
unfoldable pub to_domain_all : Keys → Result Keys
unfolding post_init
to_domain_all [] = ok []
to_domain_all (k ∷ ks) = do first ← post_init k; rest ← to_domain_all ks; ok (first ∷ rest)

-- how many keys of each status `get_keys_by_user` reads
abbrev pub scan_limit : ℕ
scan_limit = 1000

-- the default limit of `get_by_status`
abbrev pub default_limit : ℕ
default_limit = 100

module _ (table : Keys) where
  unfoldable pub get_by_status : IdempotencyStatus → ℕ → ℕ → Result Keys
  unfolding to_domain_all order_rows
  get_by_status st limit offset =
      to_domain_all (slice offset limit (newest_keys (filter_by (with_status st) table)))

  unfoldable pub get_expired_keys : Time → ℕ → ℕ → Result Keys
  unfolding to_domain_all order_rows
  get_expired_keys cutoff limit offset =
      to_domain_all
        (slice offset limit (soonest_keys (filter_by (λ k. ltb k.expires_at cutoff) table)))

  unfoldable pub get_by_fingerprint : Text → Uuid → ℕ → ℕ → Result Keys
  unfolding to_domain_all order_rows
  get_by_fingerprint fingerprint u limit offset = to_domain_all (
      slice offset limit
        (newest_keys (filter_by (λ k. text_eq k.fingerprint fingerprint && has_owner u k) table)))

  unfoldable pub count_by_user : Uuid → ℕ
  count_by_user u = length (filter_by (has_owner u) table)

  -- `get_used_key_response`
  unfoldable pub used_key_response : Text → Uuid → Option StoredResponse
  used_key_response key u = elim (find key u table) [
    | none ↦ none
    | some k ↦ if is_pending k.status then none else k.response
  ]

  unfoldable pub exists_for_user : Text → Uuid → Bool
  exists_for_user key u = any (matches key u) table

  -- `get_keys_by_user`
  unfoldable pub get_keys_by_user : Uuid → ℕ → ℕ → Result Keys
  unfolding get_by_status
  get_keys_by_user u limit offset = do
    waiting ← get_by_status pending scan_limit 0
    done ← get_by_status completed scan_limit 0
    broken ← get_by_status failed scan_limit 0
    ok (slice offset limit (newest_keys (filter_by (has_owner u) (waiting ++ (done ++ broken)))))

  -- The counts of `get_key_metrics`: pending, completed, failed, and their total.
  unfoldable pub get_key_metrics : Result (ℕ × (ℕ × (ℕ × ℕ)))
  unfolding get_by_status
  get_key_metrics = do
    waiting ← get_by_status pending default_limit 0
    done ← get_by_status completed default_limit 0
    broken ← get_by_status failed default_limit 0
    ok (
      length waiting,
      (length done, (length broken, length waiting + length done + length broken)),
    )
