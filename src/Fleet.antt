-- ===== src/Fleet.antt =====
-- The MCP server's view of the fleet: the registry (internal/registry) and the choice of the sandbox
-- that a call acts on (internal/mcpserver/selection).
mod Examples
pub mod Registry
pub mod Register
pub mod Selection
