-- ===== src/BreakGlass.antt =====
-- src/mcp_broker/break_glass.py: the records under which policies are bypassed for a time.
mod Defs
pub mod Expiry
unfoldable pub use Defs.*
