-- ===== src/Catalog.antt =====
-- src/mcp_broker/catalog.py: the broker's own tools, over the catalog of the upstreams' tools.
mod Search
mod Trees
mod Facade
mod Entries
mod Projection
mod Requests
mod Status
pub mod Ranking
pub mod Pruning
pub mod Capping
pub mod Paths
pub mod Asked
pub mod Shown
pub mod Reach
pub mod Found
pub mod Names
pub mod Health
pub mod Projected
pub mod Injected
unfoldable pub use Entries.*
unfoldable pub use Search.*
unfoldable pub use Trees.*
unfoldable pub use Facade.*
unfoldable pub use Status.*
unfoldable pub use Requests.*
unfoldable pub use Projection.*
