-- ===== src/Catalog/Rows.antt =====
-- How internal/registry/capability.go reads its tables: queryCapabilities and capabilityBindings.
use skillex.Prelude.{
  ℕ, ◌==◌, Bool, false, ◌&&◌, ◌||◌, Option, none, some, List, [], ◌∷◌, map, text_eq, text_lt,
  sort_by, ltb, if◌then◌else◌,
}
use skillex.Capability.Availability
use skillex.Registry.Tables.{rows_of}
use skillex.Catalog.Types.{
  Binding, CapabilityRecord, ServerRow, VersionRow, ViewRow, CapabilityRow, CatalogTables,
}

-- The row with an id, or with a key, which is unique.
unfoldable pub find_where {ℓ} : {A : Type ℓ} → (A → Bool) → List A → Option A
find_where p [] = none
find_where p (x ∷ xs) = let rest = find_where p xs in if p x then some x else rest

-- A row of capabilityFrom: mcp_capabilities with the rows that it is joined to.
pub record Joined : Type 0 where
  pub capability : CapabilityRow
  pub version : VersionRow
  pub server : ServerRow
  pub view : ViewRow

unfoldable pub join_row : CatalogTables → CapabilityRow → Option Joined
join_row t c = elim (find_where (λ v. v.id == c.version_id) t.versions) [
  | none ↦ none
  | some version ↦ elim (find_where (λ s. s.id == version.server_id) t.servers) [
    | none ↦ none
    | some server ↦ elim (find_where (λ v. v.id == c.view_id) t.views) [
      | none ↦ none
      | some view ↦
          some (record { capability = c; version = version; server = server; view = view })
    ]
  ]
]

-- capabilityFrom
unfoldable pub join_rows : CatalogTables → List CapabilityRow → List Joined
join_rows t [] = []
join_rows t (c ∷ cs) =
    let rest = join_rows t cs in elim (join_row t c) [ none ↦ rest | some j ↦ j ∷ rest ]

-- ORDER BY scope, relationship, auth_profile
abbrev pub binding_less : Binding → Binding → Bool
binding_less a b =
    text_lt a.scope b.scope
    || (text_eq a.scope b.scope
        && (text_lt a.relationship b.relationship
            || (text_eq a.relationship b.relationship && text_lt a.auth_profile b.auth_profile)))

-- capabilityBindings
unfoldable pub capability_bindings : CatalogTables → ℕ → List Binding
capability_bindings t id = sort_by binding_less (map (λ v. v.binding) (rows_of id t.bindings))

abbrev pub is_past : ℕ → Option ℕ → Bool
is_past now none = false
is_past now (some e) = ltb e now

-- What queryCapabilities makes of a row.
unfoldable pub hydrate : CatalogTables → ℕ → Joined → CapabilityRecord
unfolding capability_bindings
hydrate t now j = record {
  id = j.capability.id;
  capability = record {
    server = record {
      identity = record {
        canonical_name = j.server.canonical_name;
        publisher = j.server.publisher;
      };
      version = j.version.version;
      package_digest = j.version.package_digest;
      status = j.version.status;
    };
    kind = j.capability.kind;
    name = j.capability.name;
    title = j.capability.title;
    description = j.capability.description;
    input_schema = j.capability.input_schema;
    output_schema = j.capability.output_schema;
    schema_digest = j.capability.schema_digest;
    availability =
        if is_past now j.view.expires_at then Availability.stale else j.capability.availability;
    routing_scope = [];
    auth_profile = [];
  };
  expires_at = j.view.expires_at;
  visibility = j.view.visibility;
  auth_partition_hash = j.view.auth_partition_hash;
  cache_scope = j.view.cache_scope;
  source_type = j.server.source_type;
  source_ref = j.server.source_ref;
  risk = j.capability.risk;
  bindings = capability_bindings t j.capability.id;
  raw_definition = j.capability.raw_definition;
  transports = [];
}

-- queryCapabilities of the rows that a statement selects, in their order
unfoldable pub query_capabilities : CatalogTables → ℕ → List Joined → List CapabilityRecord
query_capabilities t now rows = map (hydrate t now) rows
