-- ===== src/Catalog.antt =====
-- The catalog of capabilities: internal/registry/capability.go, and internal/catalog/registry.go, which
-- gives it to the broker.
pub mod Types
pub mod Rows
pub mod Resolve
pub mod Page
pub mod Adapter
pub mod Suggest
pub mod Insert
mod Tests
