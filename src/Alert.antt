-- ===== src/Alert.antt =====
-- Alert rules: their evaluations, their incidents and their changes (business/internal/alert).
pub mod Rule
pub mod Evaluation
pub mod Changes
pub mod Trace
pub mod Incidents
pub mod Evaluated
pub mod Changed
pub mod Consistent
pub mod History
pub mod Follows
pub mod Refinement
