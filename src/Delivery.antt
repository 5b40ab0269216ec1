-- ===== src/Delivery.antt =====
-- The dispatcher of the outbox (business/internal/outbox/dispatcher.go): its options and its delivery
-- loop.
pub mod Loop
pub mod Bounds
pub mod Workers
pub mod Settings
pub mod Lease
pub mod Publish
