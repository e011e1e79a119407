-- ===== src/Worker.antt =====
-- src/mcp_broker/shared_worker.py: the in-process worker for stateless tools.
mod Tools
mod Defs
pub mod Isolation
pub mod Audit
unfoldable pub use Tools.*
unfoldable pub use Defs.*
