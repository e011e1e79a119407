-- ===== src/Core.antt =====
-- src/mcp_broker/broker.py: listing and calling tools through the broker.
mod Defs
pub mod Routes
pub mod Listing
pub mod Calls
unfoldable pub use Defs.*
