-- ===== src/Policy.antt =====
-- internal/security/policy: which commands an agent runs, for how long, and how many at once.
mod Examples
pub mod Command
pub mod Evaluate
pub mod Limits
pub mod Construct
pub mod Bounds
pub mod Names
pub mod Verdict
