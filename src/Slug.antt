-- ===== src/Slug.antt =====
-- src/mcp_broker/project_slug.py: the `project` argument from the client's working directory. A
-- path is the list of its names, the deepest first; `Path` drops empty names and ".".
mod Defs
pub mod Given
unfoldable pub use Defs.*
