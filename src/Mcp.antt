-- ===== src/Mcp.antt =====
-- internal/mcp: the tools that the server offers to agents. An error of a tool is a value, as
-- mcp.NewToolResultError is; what is marshalled for the agent is the value of `ok`.
pub mod Values
pub mod Backlog
pub mod Ready
pub mod Sessions
pub mod Input
pub mod Shown
pub mod Ideas
