-- ===== src/Catalog/Adapter.antt =====
-- internal/catalog/registry.go: the catalog of the broker over the tables of the registry. The glob
-- library is `compile`, and filepath.ToSlash changes nothing where the separator is a slash.
pub mod Isolation
use skillex.Prelude.{
  ℕ, Bool, true, false, ◌&&◌, ◌||◌, not, Option, none, some, List, [], ◌∷◌, map, Text, codes,
  is_empty, text_eq, trim_prefix, if◌then◌else◌, Result, ok, err, ◌>>=◌,
}
use skillex.Errors.{Error, other}
use skillex.Capability.Integers.{pos}
use skillex.Capability.Model.{Capability}
use skillex.Capability.Reference.{ReferenceClaims}
use skillex.Broker.Types.{Query, Facet, DiscoveryFacets, CatalogPage, Catalog}
use skillex.Catalog.Types.{Binding, CapabilityRecord, CatalogTables}
use skillex.Catalog.Rows.{find_where}
use skillex.Catalog.Resolve.{first_of, resolve_capability_view}
use skillex.Catalog.Page.{
  Sql, CapabilityFacet, CapabilityQuery, CapabilityPage, query_capability_page,
}

abbrev pub binds : ReferenceClaims → Binding → Bool
binds claims b = text_eq b.scope claims.routing_scope && text_eq b.auth_profile claims.auth_profile

abbrev pub routed : Capability → Binding → Capability
routed c b = record c { routing_scope = b.scope; auth_profile = b.auth_profile }

-- The part of Resolve behind the lookup.
unfoldable pub resolve_record : ReferenceClaims → CapabilityRecord → Result Error Capability
unfolding find_where
resolve_record claims r = elim (find_where (binds claims) r.bindings) [
  | some b ↦ ok (routed r.capability b)
  | none ↦
      if not (is_empty claims.routing_scope) || not (is_empty claims.auth_profile)
      then err other
      else ok r.capability
]

-- Resolve
unfoldable pub resolve : CatalogTables → ℕ → ReferenceClaims → Result Error Capability
unfolding resolve_record
resolve t now claims =
    elim (resolve_capability_view t now claims.server claims.version claims.kind claims.capability
      claims.view) [ none ↦ err other | some r ↦ resolve_record claims r ]

-- A pattern that is compiled and matches.
abbrev pub glob_matches : (Text → Option (Text → Bool)) → Text → Text → Bool
glob_matches compile pattern path = elim (compile pattern) [ none ↦ false | some g ↦ g path ]

abbrev pub binding_matches : (Text → Option (Text → Bool)) → Text → Binding → Bool
binding_matches compile path b =
    text_eq b.scope (codes "**")
    || (text_eq b.scope (codes "*") || (not (is_empty path) && glob_matches compile b.scope path))

-- matchingBinding
unfoldable pub matching_binding :
    (Text → Option (Text → Bool)) → CapabilityRecord → Text → Option Binding
unfolding find_where trim_prefix
matching_binding compile r path =
    let normal = trim_prefix path (codes "./") in
    elim (find_where (binding_matches compile normal) r.bindings) [
      | some b ↦ some b
      | none ↦ if is_empty normal then first_of r.bindings else none
    ]

-- One round of the loop of Search.
unfoldable pub search_result : (Text → Option (Text → Bool)) → Text → CapabilityRecord → Capability
unfolding matching_binding
search_result compile path r = elim (matching_binding compile r path) [
  | none ↦ r.capability
  | some b ↦ routed r.capability b
]

-- capabilityFacets
unfoldable pub capability_facets : List CapabilityFacet → List Facet
capability_facets = map (λ f. record { value = f.value; count = f.count })

unfoldable pub search_page : (Text → Option (Text → Bool)) → Text → CapabilityPage → CatalogPage
unfolding search_result capability_facets
search_page compile path page = record {
  capabilities = map (search_result compile path) page.records;
  match_count = page.match_count;
  facets = record {
    servers = capability_facets page.facets.servers;
    kinds = capability_facets page.facets.kinds;
    availability = capability_facets page.facets.availability;
  };
}

abbrev pub registry_query : Query → CapabilityQuery
registry_query q = record {
  search = q.search;
  path = q.path;
  server = q.server;
  kind = q.kind;
  availability = q.availability;
  view = q.view;
  limit = pos q.limit;
  offset = pos q.offset;
  all_views = false;
}

-- Search
unfoldable pub search :
    Sql → (Text → Option (Text → Bool)) → CatalogTables → ℕ → Query → Result Error CatalogPage
unfolding search_page
search sql compile t now q = elim (query_capability_page sql compile t now (registry_query q)) [
  | none ↦ err other
  | some page ↦ ok (search_page compile q.path page)
]

-- NewRegistry, for tables as they are at a time
unfoldable pub new_registry : Sql → (Text → Option (Text → Bool)) → CatalogTables → ℕ → Catalog
unfolding search resolve
new_registry sql compile t now = record {
  search = search sql compile t now;
  resolve = resolve t now;
}
