-- ===== src/Paging.antt =====
-- Keyset pagination of posts and notifications (business/internal/post and
-- business/internal/notification).
pub mod Base64
pub mod Cursor
pub mod RoundTrip
pub mod Listing
pub mod Order
pub mod Walk
