-- ===== src/Diagnostics/FixPlan.antt =====
-- crates/pure-analyzer-diagnostics/src/fix_plan.rs
pub mod Plan
pub mod Order
pub mod Validate
pub mod Build
pub mod Apply
pub mod Sorting
pub mod Splice
pub mod Selected
pub mod Accepted
pub mod Sources
pub mod Safe
pub mod Applied
pub mod Twice
pub mod Complete
mod Tests
