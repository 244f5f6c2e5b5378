-- ===== src/Trust.antt =====
-- internal/trust/config.go: the user-controlled configuration of servers, policy and credentials.
pub mod Types
pub mod Endpoint
pub mod Checks
pub mod Validate
pub mod Sources
pub mod Launch
mod Tests
