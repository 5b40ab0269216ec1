-- ===== src/Examples.antt =====
-- The theorems at concrete inputs, and the fixtures they need.
mod Spool
mod Outbox
mod Cleanup
mod Delivery
mod Consumer
mod Processor
mod Paging
mod Alert
mod Retention
mod RateLimit
