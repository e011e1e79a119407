-- ===== src/SharedState.antt =====
-- src/mcp_broker/distributed_state.py: the lock, the active state and the journal of the shared
-- runtime.
mod Defs
pub mod Recovery
pub mod Applying
pub mod Fencing
pub mod Progress
pub mod Cell
pub mod Refinement
unfoldable pub use Defs.*
