-- ===== src/Exec.antt =====
-- internal/agent/exec: the environment a command runs with (env.go, env_unix.go, env_windows.go) and the stream its
-- output goes to (stream.go).
pub mod Env
pub mod Sink
mod Examples
