-- ===== src/Capability.antt =====
-- internal/capability: the capabilities of downstream servers and the references to them.
pub mod Integers
pub mod Kind
pub mod Availability
pub mod Model
pub mod Reference
pub mod Description
pub mod Samples
pub mod Tests
