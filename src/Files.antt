-- ===== src/Files.antt =====
-- internal/agent/fs: which paths a glob matched, and the edits of a file.
pub mod Pattern
pub mod Edit
pub mod Locks
pub mod Diff
pub mod Ignore
mod Examples
