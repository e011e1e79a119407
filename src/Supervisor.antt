-- ===== src/Supervisor.antt =====
-- src/mcp_broker/upstream_process.py: the life of one upstream's process.
mod Defs
pub mod Moves
pub mod Quiet
pub mod History
pub mod Restarts
pub mod Guards
pub mod Kills
unfoldable pub use Defs.*
