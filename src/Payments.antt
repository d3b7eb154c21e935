-- ===== src/Payments.antt =====
-- The payments module of the backend (backend/src/modules/payments).
pub mod Store
pub mod Repository
pub mod Service
pub mod Statuses
pub mod Checkout
pub mod Refunds
pub mod Capacity
pub mod Webhook
pub mod Reads
pub mod Stats
mod Tests
