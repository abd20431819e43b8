-- ===== src/Mcp.antt =====
-- browser_executor/mcp_server.py: the JSON-RPC server that gives an agent the controller's tools.
pub mod Tools
pub mod Serves
pub mod Server
pub mod Answers
pub mod Sessions
pub mod Calls
