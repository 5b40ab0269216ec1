-- ===== src/Consumer.antt =====
-- The marshaller's consumer (observability/marshaller/internal/consumer): the ownership of partitions.
pub mod Ownership
pub mod Leases
pub mod Staleness
pub mod Processor
pub mod Commits
pub mod Delivered
