-- ===== src/Registry.antt =====
-- internal/registry: the skill index.
pub mod Path
pub mod Tables
pub mod Store
pub mod Lookup
pub mod Tests
