-- ===== src/Policy/Eval.antt =====
-- src/lib/policy/eval.ts: may a source reach a destination?
pub mod Expand
pub mod Proto
pub mod Query
pub mod Evaluate
pub mod Total
pub mod Notes
pub mod Spec
pub mod Ranges
pub mod Answers
pub mod Runs
pub mod Rounds
pub mod Decide
pub mod Cycle
mod Tests
pub mod Overlap
