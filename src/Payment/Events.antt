-- ===== src/Payment/Events.antt =====
-- The payment events: their fields, their registry and their JSON form
-- (src/domain/apps/payment/events.py, src/domain/shared/events.py).
mod Fields
pub mod Registry
pub mod Serial
pub mod RoundTrip
mod Tests
pub use Fields.{
  EventHead, CreatedFields, PaymentEvent, payment_created, payment_processed, payment_succeeded,
  payment_failed, payment_cancelled, payment_refunded, head_of,
}
