-- ===== src/Layers.antt =====
-- src/mcp_broker/config_layers.py: layers of configuration, and the secrets that they may not hold.
mod Patterns
mod Defs
pub mod Secrets
unfoldable pub use Patterns.*
unfoldable pub use Defs.*
