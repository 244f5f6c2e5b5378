-- ===== src/Query.antt =====
-- internal/query: bounded discovery of skills, and reading of one skill.
pub mod Limits
pub mod Cursor
pub mod Types
pub mod Facets
pub mod Page
pub mod Match
pub mod Engine
mod Tests
