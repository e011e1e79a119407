-- ===== src/Upstream.antt =====
-- src/mcp_broker/config.py: the settings that the broker's operations read.
mod Defs
pub mod Environment
unfoldable pub use Defs.*
