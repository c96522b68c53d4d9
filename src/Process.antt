-- ===== src/Process.antt =====
-- internal/agent/process: the supervisor's state machine and slots, its restarts, and its log buffer.
mod Examples
pub mod State
pub mod Record
pub mod Restart
pub mod Slots
pub mod Outcome
pub mod Backoff
pub mod LogBuffer
