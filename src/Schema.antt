-- ===== src/Schema.antt =====
-- internal/schema: the schemas of Go's types.
pub mod JsonFields
pub mod Depth
pub mod Chosen
pub mod Resolved
pub mod Enough
pub mod Names
pub mod Pigeons
pub mod FreeName
pub mod Naming
mod Tests
mod NameTests
