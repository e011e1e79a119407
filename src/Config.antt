-- ===== src/Config.antt =====
-- src/mcp_broker/config.py: what `BrokerConfig` checks across upstreams and profiles.
mod Defs
pub mod Prefixes
pub mod Offers
unfoldable pub use Defs.*
