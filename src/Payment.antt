-- ===== src/Payment.antt =====
-- The payment domain (src/domain/apps/payment/).
pub mod Types
pub mod Events
pub mod Aggregate
pub mod Older
pub mod Tests
