-- ===== src/Queries.antt =====
-- The read side: queries of payments and of idempotency keys.
pub mod Pages
pub mod Payments
pub mod Keys
mod Tests
