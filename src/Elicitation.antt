-- ===== src/Elicitation.antt =====
-- src/mcp_broker/elicitation.py: approval requests of upstreams, relayed to the host.
mod Checks
mod Defs
pub mod Lines
pub mod Replies
unfoldable pub use Checks.*
unfoldable pub use Defs.*
