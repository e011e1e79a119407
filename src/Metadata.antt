-- ===== src/Metadata.antt =====
-- src/mcp_broker/request_metadata.py: the metadata that goes with a call to an upstream.
mod Defs
mod Params
pub mod Forwarding
pub mod Precedence
unfoldable pub use Defs.*
unfoldable pub use Params.*
