-- ===== src/Harness.antt =====
-- The harness: what a turn or a leaf runs on.
pub mod Json
pub mod Gate
pub mod Budget
pub mod Verdict
pub mod Lease
pub mod Select
mod Tests
