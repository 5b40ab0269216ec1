-- ===== src/Outbox.antt =====
-- The transactional outbox of the business system: backend/business/internal/outbox.
pub mod Row
pub mod Repository
pub mod Table
pub mod Claims
pub mod Trace
pub mod Exclusive
pub mod Acknowledge
pub mod Opened
pub mod Cleanup
pub mod Published
pub mod Cleaned
