-- ===== src/Messaging.antt =====
-- What leaves the service and what comes back: src/messaging.
pub mod Wire
pub mod Publisher
pub mod Bus
pub mod Handlers
pub mod Consumer
pub mod Rabbit
mod Tests
