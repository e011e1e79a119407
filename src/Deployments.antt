-- ===== src/Deployments.antt =====
-- src/mcp_broker/deployments.py: the records of deployments, the pointers to the active and the
-- previous one, and the journal.
mod Names
mod Defs
pub mod Fitting
pub mod Cleaning
pub mod Crashes
pub mod Undo
pub mod Healing
unfoldable pub use Names.*
unfoldable pub use Defs.*
