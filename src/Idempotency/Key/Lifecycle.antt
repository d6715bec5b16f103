-- ===== src/Idempotency/Key/Lifecycle.antt =====
-- The life of an idempotency key (src/domain/idempotency/models.py).
use microservice_payment_ser.Base.{ℕ, ◌≡◌, ◌≢◌, ◌⊎◌, none, arith}
use microservice_payment_ser.Base.Text.{Text}
use microservice_payment_ser.Errors.{Time, ok, err, invalid_state_transition}
use microservice_payment_ser.Idempotency.Key.{
  IdempotencyKey, StoredResponse, pending, record_success, record_failure, mark_in_progress,
}

-- The table's check constraint: only a pending key is locked. A final key has its response.
pub record IsValid (k : IdempotencyKey) : Type 0 where
  pub unlocked : k.status ≢ pending → (k.locked_until ≡ none) × (k.locked_by ≡ none)
  pub answered : k.status ≢ pending → k.response ≢ none

-- Claiming, recording a success and recording a failure keep a key valid.
pub step-IsValid :
    (now : Time) (locker : Text) (lease : ℕ) (r : StoredResponse) (k m : IdempotencyKey)
    → IsValid k
    → (mark_in_progress now locker lease k ≡ ok m)
      ⊎ (record_success now r k ≡ ok m)
      ⊎ (record_failure now r k ≡ ok m)
    → IsValid m
unfolding mark_in_progress record_success record_failure
step-IsValid now locker lease r k m v h = ground arith

-- A key takes one outcome: when one has been recorded, both ways of recording another raise, and so
-- does a claim, whatever the time and the response.
pub outcome_once :
    (now later : Time) (r r' : StoredResponse) (locker : Text) (lease : ℕ) (k m : IdempotencyKey)
    → (record_success now r k ≡ ok m) ⊎ (record_failure now r k ≡ ok m)
    → (record_success later r' m ≡ err (invalid_state_transition m.key "transition"))
      × (record_failure later r' m ≡ err (invalid_state_transition m.key "transition"))
      × (mark_in_progress later locker lease m
          ≡ err (invalid_state_transition m.key "mark in progress"))
unfolding mark_in_progress record_success record_failure
outcome_once now later r r' locker lease k m h = (ground arith, ground arith, ground arith)
