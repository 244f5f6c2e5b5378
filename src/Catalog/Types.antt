-- ===== src/Catalog/Types.antt =====
-- The data of internal/registry/capability.go: records of capabilities, and the tables that keep them.
-- A time is a number of nanoseconds, and `none` is the zero time; the time of observation, `indexed_at`
-- and `Score` are left out.
use skillex.Prelude.{ℕ, Option, List, Text}
use skillex.Capability.Model.{Capability}
use skillex.Registry.Path.{PatternType}
use skillex.Registry.Tables.{Row}

-- CapabilityBinding
pub record Binding : Type 0 where
  pub scope : Text
  pub relationship : Text
  pub auth_profile : Text

-- TransportRecord
pub record Transport : Type 0 where
  pub server : Text
  pub version : Text
  pub kind : Text
  pub package_registry : Text
  pub package_id : Text
  pub package_version : Text
  pub package_digest : Text
  pub endpoint : Text
  pub command_template : Text
  pub origin : Text

-- CapabilityRecord, with the expiry of its capability.
pub record CapabilityRecord : Type 0 where
  pub id : ℕ
  pub capability : Capability
  pub expires_at : Option ℕ
  pub visibility : Text
  pub auth_partition_hash : Text
  pub cache_scope : Text
  pub source_type : Text
  pub source_ref : Text
  pub risk : Text
  pub bindings : List Binding
  pub raw_definition : Text
  pub transports : List Transport

-- scanner.CapabilitySuggestion
pub record Suggestion : Type 0 where
  pub server_ref : Text
  pub version : Text
  pub relationship : Text
  pub capabilities : List Text
  pub scopes : List Text
  pub source_type : Text
  pub source_ref : Text

-- A row of mcp_servers, and so on.
pub record ServerRow : Type 0 where
  pub id : ℕ
  pub canonical_name : Text
  pub publisher : Text
  pub source_type : Text
  pub source_ref : Text

pub record VersionRow : Type 0 where
  pub id : ℕ
  pub server_id : ℕ
  pub version : Text
  pub package_digest : Text
  pub status : Text

pub record ViewRow : Type 0 where
  pub id : ℕ
  pub version_id : ℕ
  pub visibility : Text
  pub auth_partition_hash : Text
  pub cache_scope : Text
  pub expires_at : Option ℕ

pub record CapabilityRow : Type 0 where
  pub id : ℕ
  pub version_id : ℕ
  pub view_id : ℕ
  pub kind : Text
  pub name : Text
  pub title : Text
  pub description : Text
  pub input_schema : Text
  pub output_schema : Text
  pub schema_digest : Text
  pub risk : Text
  pub availability : Text
  pub raw_definition : Text

pub record BindingValue : Type 0 where
  pub binding : Binding
  pub path_prefix : Text
  pub pattern_type : PatternType

-- A row of mcp_capability_search.
pub record Document : Type 0 where
  pub server : Text
  pub name : Text
  pub title : Text
  pub description : Text
  pub schema_summary : Text
  pub binding : Text

pub record CatalogTables : Type 0 where
  pub servers : List ServerRow
  pub versions : List VersionRow
  pub transports : List (Row Transport)
  pub views : List ViewRow
  pub capabilities : List CapabilityRow
  pub bindings : List (Row BindingValue)
  pub search : List (Row Document)
  -- AUTOINCREMENT, of each table with ids
  pub next_server : ℕ
  pub next_version : ℕ
  pub next_view : ℕ
  pub next_capability : ℕ
