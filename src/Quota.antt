-- ===== src/Quota.antt =====
-- src/mcp_broker/quota_policy.py: quotas and kill switches of the shared runtime.
mod Defs
pub mod Permits
unfoldable pub use Defs.*
