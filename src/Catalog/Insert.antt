-- ===== src/Catalog/Insert.antt =====
-- InsertCapability of internal/registry/capability.go. A statement that fails makes the whole fail, and
-- the transaction leaves the tables as they were. The columns raw_metadata and provenance are left out.
pub mod Bindings
use skillex.Prelude.{
  ℕ, suc, ◌==◌, Bool, true, false, ◌&&◌, ◌||◌, not, Option, none, some, List, [], ◌∷◌, ◌++◌, map,
  Text, codes, is_empty, text_eq, join, any, if◌then◌else◌, Result, ok, err, ◌>>=◌, ◌>>◌, guard,
}
use skillex.Errors.{Error, other}
use skillex.Capability.Model.{Capability, Encoding, with_computed_schema_digest, or_fail}
use skillex.Registry.Path.{classify_scope}
use skillex.Registry.Tables.{Row, delete_rows, insert_rows}
use skillex.Catalog.Types.{
  Binding, Transport, CapabilityRecord, ServerRow, VersionRow, ViewRow, CapabilityRow, BindingValue,
  Document, CatalogTables,
}
use skillex.Catalog.Rows.{find_where}
use skillex.Catalog.Resolve.{public_partition}

-- defaultString
abbrev pub default_string : Text → Text → Text
default_string value fallback = if is_empty value then fallback else value

-- The record with its defaults; an empty cache scope is the visibility.
abbrev pub with_defaults : CapabilityRecord → CapabilityRecord
with_defaults r = record r {
  visibility = default_string r.visibility public_partition;
  auth_partition_hash = default_string r.auth_partition_hash public_partition;
  cache_scope = default_string r.cache_scope (default_string r.visibility public_partition);
}

-- INSERT … ON CONFLICT … DO UPDATE, for the rows with the same key
unfoldable pub upsert {ℓ} : {A : Type ℓ} → (A → Bool) → (A → A) → A → List A → List A
upsert same_key update new rows =
    if any same_key rows
    then map (λ r. if same_key r then update r else r) rows
    else rows ++ new ∷ []

abbrev pub is_server : Text → ServerRow → Bool
is_server name r = text_eq r.canonical_name name

unfoldable pub upsert_server : CapabilityRecord → CatalogTables → CatalogTables
unfolding upsert
upsert_server r t =
    let identity = r.capability.server.identity in
    record t {
      servers =
          upsert (is_server identity.canonical_name)
            (λ row. record row {
              publisher = identity.publisher;
              source_type = r.source_type;
              source_ref = r.source_ref;
            })
            (record {
              id = t.next_server;
              canonical_name = identity.canonical_name;
              publisher = identity.publisher;
              source_type = r.source_type;
              source_ref = r.source_ref;
            })
            t.servers;
      next_server = suc t.next_server;
    }

abbrev pub is_server_version : ℕ → Text → VersionRow → Bool
is_server_version server_id version r = r.server_id == server_id && text_eq r.version version

unfoldable pub upsert_version : CapabilityRecord → ℕ → CatalogTables → CatalogTables
unfolding upsert
upsert_version r server_id t =
    let server = r.capability.server in
    let status = default_string server.status (codes "active") in
    record t {
      versions =
          upsert (is_server_version server_id server.version)
            (λ row. record row { package_digest = server.package_digest; status = status })
            (record {
              id = t.next_version;
              server_id = server_id;
              version = server.version;
              package_digest = server.package_digest;
              status = status;
            })
            t.versions;
      next_version = suc t.next_version;
    }

abbrev pub is_transport : ℕ → Transport → Row Transport → Bool
is_transport version_id x (id, y) =
    id == version_id
    && (text_eq y.kind x.kind
        && (text_eq y.package_id x.package_id && text_eq y.endpoint x.endpoint))

-- The loop over the transports.
unfoldable pub insert_transports :
    CapabilityRecord
    → ℕ
    → List Transport
    → List (Row Transport)
    → Result Error (List (Row Transport))
unfolding upsert
insert_transports r version_id [] rows = ok rows
insert_transports r version_id (x ∷ xs) rows = do
  guard
      (text_eq x.server r.capability.server.identity.canonical_name
        && (text_eq x.version r.capability.server.version && not (is_empty x.kind)))
      other
  insert_transports r version_id xs
      (upsert (is_transport version_id x) (λ row. (version_id, x)) (version_id, x) rows)

abbrev pub is_view : ℕ → Text → ViewRow → Bool
is_view version_id partition r =
    r.version_id == version_id && text_eq r.auth_partition_hash partition

unfoldable pub upsert_view : CapabilityRecord → ℕ → CatalogTables → CatalogTables
unfolding upsert
upsert_view r version_id t = record t {
  views =
      upsert (is_view version_id r.auth_partition_hash)
        (λ row. record row {
          visibility = r.visibility;
          cache_scope = r.cache_scope;
          expires_at = r.expires_at;
        })
        (record {
          id = t.next_view;
          version_id = version_id;
          visibility = r.visibility;
          auth_partition_hash = r.auth_partition_hash;
          cache_scope = r.cache_scope;
          expires_at = r.expires_at;
        })
        t.views;
  next_view = suc t.next_view;
}

abbrev pub is_capability : ℕ → Text → Text → CapabilityRow → Bool
is_capability view_id kind name r =
    r.view_id == view_id && (text_eq r.kind kind && text_eq r.name name)

unfoldable pub upsert_capability : CapabilityRecord → ℕ → ℕ → CatalogTables → CatalogTables
unfolding upsert
upsert_capability r version_id view_id t =
    let c = r.capability in
    record t {
      capabilities =
          upsert (is_capability view_id c.kind c.name)
            (λ row. record row {
              title = c.title;
              description = c.description;
              input_schema = c.input_schema;
              output_schema = c.output_schema;
              schema_digest = c.schema_digest;
              risk = r.risk;
              availability = c.availability;
              raw_definition = r.raw_definition;
            })
            (record {
              id = t.next_capability;
              version_id = version_id;
              view_id = view_id;
              kind = c.kind;
              name = c.name;
              title = c.title;
              description = c.description;
              input_schema = c.input_schema;
              output_schema = c.output_schema;
              schema_digest = c.schema_digest;
              risk = r.risk;
              availability = c.availability;
              raw_definition = r.raw_definition;
            })
            t.capabilities;
      next_capability = suc t.next_capability;
    }

abbrev pub binding_value : Binding → BindingValue
binding_value b =
    let (pattern_type, path_prefix) = classify_scope b.scope in
    record { binding = b; path_prefix = path_prefix; pattern_type = pattern_type }

-- UNIQUE(capability_id, scope, auth_profile)
abbrev pub conflicts : ℕ → Binding → Row BindingValue → Bool
conflicts id b (j, v) =
    j == id && (text_eq v.binding.scope b.scope && text_eq v.binding.auth_profile b.auth_profile)

-- The loop over the bindings.
unfoldable pub insert_bindings :
    ℕ → List Binding → List (Row BindingValue) → Result Error (List (Row BindingValue))
insert_bindings id [] rows = ok rows
insert_bindings id (b ∷ bs) rows = do
  guard (not (any (conflicts id b) rows)) other
  insert_bindings id bs (rows ++ (id, binding_value b) ∷ [])

-- schemaSearchText
abbrev pub schema_search_text : Capability → Text
schema_search_text c = c.input_schema ++ 0x20 ∷ c.output_schema

-- bindingSearch
abbrev pub binding_search : List Binding → List Text
binding_search [] = []
binding_search (b ∷ bs) = b.relationship ∷ b.scope ∷ b.auth_profile ∷ binding_search bs

-- The document of a record for the search.
abbrev pub document_of : CapabilityRecord → Document
document_of r = record {
  server = r.capability.server.identity.canonical_name;
  name = r.capability.name;
  title = r.capability.title;
  description = r.capability.description;
  schema_summary = schema_search_text r.capability;
  binding = join 0x20 (binding_search r.bindings);
}

-- The children of a capability, replaced.
unfoldable pub replace_bindings : CapabilityRecord → ℕ → CatalogTables → Result Error CatalogTables
unfolding insert_bindings
replace_bindings r id t = do
  bindings ← insert_bindings id r.bindings (delete_rows id t.bindings)
  ok (record t {
    bindings = bindings;
    search = insert_rows id (document_of r ∷ []) (delete_rows id t.search);
  })

-- The transaction, for a record with its digest and its defaults.
unfoldable pub insert_record : CapabilityRecord → CatalogTables → Result Error (ℕ × CatalogTables)
unfolding insert_transports replace_bindings
insert_record r t = do
  let t1 = upsert_server r t
  server ← or_fail (find_where (is_server r.capability.server.identity.canonical_name) t1.servers)
  let t2 = upsert_version r server.id t1
  version ←
      or_fail (find_where (is_server_version server.id r.capability.server.version) t2.versions)
  transports ← insert_transports r version.id r.transports t2.transports
  let t3 = upsert_view r version.id (record t2 { transports = transports })
  view ← or_fail (find_where (is_view version.id r.auth_partition_hash) t3.views)
  let t4 = upsert_capability r version.id view.id t3
  capability ←
      or_fail
        (find_where (is_capability view.id r.capability.kind r.capability.name) t4.capabilities)
  t5 ← replace_bindings r capability.id t4
  ok (capability.id, t5)

module _ (enc : Encoding) (marshal : Capability → Option Text) where
  -- The raw definition that was given, or the capability as JSON.
  unfoldable pub raw_of : CapabilityRecord → Capability → Result Error Text
  raw_of r selected =
      if is_empty r.raw_definition then or_fail (marshal selected) else ok r.raw_definition

  -- InsertCapability
  unfoldable pub insert_capability :
      CatalogTables → CapabilityRecord → Result Error (ℕ × CatalogTables)
  unfolding insert_record raw_of
  insert_capability t r = do
    selected ← with_computed_schema_digest enc r.capability
    guard (not (is_empty r.source_type || is_empty r.source_ref)) other
    raw ← raw_of r selected
    insert_record (record (with_defaults r) { capability = selected; raw_definition = raw }) t
