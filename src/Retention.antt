-- ===== src/Retention.antt =====
-- How long the marshaller keeps logs and events (marshaller/internal/retention).
pub mod Policy
pub mod Runner
pub mod Agreement
pub mod Deletes
pub mod Budget
