-- ===== src/Spool.antt =====
-- The durable hand-off queue of Monitor: backend/observability/monitor/internal/spool/spool.go.
pub mod Store
pub mod Bucket
pub mod Queue
pub mod Eviction
pub mod Sound
pub mod Accept
pub mod Failures
pub mod Refuse
pub mod Claim
pub mod Acknowledge
pub mod Trace
pub mod Open
pub mod Restart
pub mod Manager
pub mod Fairness
