-- ===== src/Mcp.antt =====
-- The parts of src/mcp that stand by themselves: the names of MCP tools and the parser of
-- server-sent events.
pub mod Naming
pub mod Sse
