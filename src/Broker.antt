-- ===== src/Broker.antt =====
-- internal/broker/broker.go: discovery, description and lazy invocation of capabilities.
pub mod Types
pub mod Discover
pub mod Describe
pub mod Call
pub mod Tests
