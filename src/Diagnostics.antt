-- ===== src/Diagnostics.antt =====
-- crates/pure-analyzer-diagnostics: structured fixes and the plans that apply them.
pub mod Text
pub mod Fix
pub mod FixPlan
pub mod Codes
pub mod Reasons
pub mod Registry
mod Tests
