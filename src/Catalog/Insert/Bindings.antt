-- ===== src/Catalog/Insert/Bindings.antt =====
-- The bindings that InsertCapability of internal/registry/capability.go stores.
use skillex.Prelude.{List}
use skillex.Capability.Model.{Capability}
