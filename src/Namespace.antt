-- ===== src/Namespace.antt =====
-- src/mcp_broker/tool_namespace.py: names of upstream tools as clients see them.
mod Definitions
mod Defs
pub mod Index
pub mod RoundTrip
pub mod Budget
unfoldable pub use Definitions.*
unfoldable pub use Defs.*
