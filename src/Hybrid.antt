-- ===== src/Hybrid.antt =====
-- src/mcp_broker/hybrid_router.py: local edge or shared worker.
mod Defs
pub mod Routes
pub mod Answers
unfoldable pub use Defs.*
