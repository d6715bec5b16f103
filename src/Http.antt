-- ===== src/Http.antt =====
-- The views of src/apis/payment/command_views.py and the middleware before them.
pub mod Requests
pub mod Creation
pub mod Transition
pub mod Posting
pub mod Once
pub mod Keys
pub mod Entry
mod Tests
