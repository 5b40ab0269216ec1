-- ===== src/RateLimit.antt =====
-- The shared rate limiter and its leases: business/internal/ratelimit.
pub mod Lease
pub mod Account
pub mod Room
pub mod Quota
