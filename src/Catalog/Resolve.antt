-- ===== src/Catalog/Resolve.antt =====
-- ResolveCapability and ResolveCapabilityView of internal/registry/capability.go.
pub mod Isolation
use skillex.Prelude.{
  ℕ, Bool, true, false, ◌&&◌, ◌||◌, not, Option, none, some, List, [], ◌∷◌, Text, codes, text_eq,
  text_lt, select, sort_by,
}
use skillex.Catalog.Types.{CapabilityRecord, CatalogTables}
use skillex.Catalog.Rows.{Joined, join_rows, hydrate, query_capabilities}

abbrev pub public_partition : Text
public_partition = codes "public"

-- s.canonical_name = ? AND sv.version = ? AND c.kind = ? AND c.name = ?
abbrev pub has_identity : Text → Text → Text → Text → Joined → Bool
has_identity server version kind name j =
    text_eq j.server.canonical_name server
    && (text_eq j.version.version version
        && (text_eq j.capability.kind kind && text_eq j.capability.name name))

-- v.auth_partition_hash = 'public' OR v.auth_partition_hash = ?
abbrev pub is_visible : Text → Text → Bool
is_visible view partition = text_eq partition public_partition || text_eq partition view

-- LIMIT 1
abbrev pub first_of {ℓ} : {A : Type ℓ} → List A → Option A
first_of [] = none
first_of (x ∷ xs) = some x

abbrev pub is_own : Text → Joined → Bool
is_own view j = text_eq j.view.auth_partition_hash view

-- CASE WHEN v.auth_partition_hash = ? THEN 0 ELSE 1 END
abbrev pub own_first : Text → Joined → Joined → Bool
own_first view a b = is_own view a && not (is_own view b)

-- The rows that ResolveCapabilityView selects.
abbrev pub view_rows : CatalogTables → Text → Text → Text → Text → Text → List Joined
view_rows t server version kind name view =
    select
      (λ j. has_identity server version kind name j && is_visible view j.view.auth_partition_hash)
      (join_rows t t.capabilities)

-- ResolveCapabilityView
unfoldable pub resolve_capability_view :
    CatalogTables → ℕ → Text → Text → Text → Text → Text → Option CapabilityRecord
unfolding query_capabilities
resolve_capability_view t now server version kind name view =
    elim (first_of (sort_by (own_first view) (view_rows t server version kind name view))) [
      | none ↦ none
      | some j ↦ first_of (query_capabilities t now (j ∷ []))
    ]

-- ORDER BY v.visibility, v.auth_partition_hash
abbrev pub visibility_less : Joined → Joined → Bool
visibility_less a b =
    text_lt a.view.visibility b.view.visibility
    || (text_eq a.view.visibility b.view.visibility
        && text_lt a.view.auth_partition_hash b.view.auth_partition_hash)

-- ResolveCapability
unfoldable pub resolve_capability :
    CatalogTables → ℕ → Text → Text → Text → Text → Option CapabilityRecord
unfolding query_capabilities
resolve_capability t now server version kind name =
    elim (first_of (
      sort_by visibility_less
        (select (has_identity server version kind name) (join_rows t t.capabilities)))) [
          | none ↦ none
          | some j ↦ first_of (query_capabilities t now (j ∷ []))
        ]
