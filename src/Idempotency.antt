-- ===== src/Idempotency.antt =====
-- Idempotency keys: the domain object, its table and the service (src/domain/idempotency/,
-- src/infrastructure/repos/idempontency/, src/application/idempotency/).
pub mod Key
pub mod Store
pub mod Service
mod Tests
