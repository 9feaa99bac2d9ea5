-- ===== src/Server.antt =====
-- src/server: the tasks of the MCP server.
pub mod Tasks
