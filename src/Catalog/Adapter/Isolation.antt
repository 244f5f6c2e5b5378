-- ===== src/Catalog/Adapter/Isolation.antt =====
-- The broker of internal/broker over the catalog of internal/catalog/registry.go.
use skillex.Prelude.{
  ℕ, ◌≡◌, refl, Bool, true, ◌&&◌, ◌||◌, not, Option, some, List, [], ◌∷◌, Text, is_empty, text_eq,
  any, ok, err, arith, Option-cases, Bool-cases, inl, inr,
}
use skillex.Errors.{other}
use skillex.Capability.Model.{Capability}
use skillex.Capability.Reference.{ReferenceClaims}
use skillex.Broker.Types.{Broker, RequestContext}
use skillex.Broker.Describe.{describe, describe_sound}
use skillex.Catalog.Types.{Binding, CapabilityRecord, CatalogTables}
use skillex.Catalog.Rows.{find_where}
use skillex.Catalog.Resolve.{is_visible, resolve_capability_view}
use skillex.Catalog.Resolve.Isolation.{resolve_capability_view_isolated}
use skillex.Catalog.Page.{Sql}
use skillex.Catalog.Adapter.{binds, resolve_record, resolve, new_registry}

-- The record a capability is resolved from: visible for the view, and with the binding of the claims.
pub record IsFrom (t : CatalogTables) (now : ℕ) (claims : ReferenceClaims) : Type 0 where
  pub source : CapabilityRecord
  pub found :
      resolve_capability_view t now claims.server claims.version claims.kind claims.capability
        claims.view
      ≡ some source
  pub visible : is_visible claims.view source.auth_partition_hash ≡ true
  pub bound :
      (any (binds claims) source.bindings
        || (is_empty claims.routing_scope && is_empty claims.auth_profile))
      ≡ true

any-find_where :
    {A : Type 0} (p : A → Bool) (xs : List A) {x : A} → find_where p xs ≡ some x → any p xs ≡ true
unfolding find_where
any-find_where p [] h = cc
any-find_where p (x ∷ xs) h = elim (Bool-cases (p x)) [
  | inl e ↦ rw e refl
  | inr e ↦ rw e (any-find_where p xs (rw (find_where, e) at h))
]

resolve-IsFrom :
    (t : CatalogTables) (now : ℕ) (claims : ReferenceClaims) (c : Capability)
    → resolve t now claims ≡ ok c
    → IsFrom t now claims
unfolding resolve resolve_record
resolve-IsFrom t now claims c h =
    elim (Option-cases (
      resolve_capability_view t now claims.server claims.version claims.kind claims.capability
        claims.view)) [
          | inl e ↦ let k : err other ≡ ok c = rw (resolve, e) at h in cc
          | inr (r, e) ↦
              let k : resolve_record claims r ≡ ok c = rw (resolve, e) at h in
              let isolated =
                resolve_capability_view_isolated t now claims.server claims.version claims.kind
                  claims.capability claims.view e in
              elim (Option-cases (find_where (binds claims) r.bindings)) [
                | inr (b, f) ↦ record {
                  source = r;
                  found = e;
                  visible = isolated.visible;
                  bound = rw (any-find_where (binds claims) r.bindings f) refl;
                }
                | inl f ↦
                    elim (Bool-cases
                      (not (is_empty claims.routing_scope) || not (is_empty claims.auth_profile))) [
                        | inl g ↦ let l : err other ≡ ok c = rw (resolve_record, f, g) at k in cc
                        | inr g ↦ record {
                          source = r;
                          found = e;
                          visible = isolated.visible;
                          bound = ground arith;
                        }
                      ]
              ]
        ]

abbrev pub is_bound : Capability → Binding → Bool
is_bound c b = text_eq b.scope c.routing_scope && text_eq b.auth_profile c.auth_profile

from-claims :
    (t : CatalogTables) (now : ℕ) (claims : ReferenceClaims) (request : RequestContext)
    (c : Capability) (r : CapabilityRecord)
    → claims.server ≡ c.server.identity.canonical_name
    → claims.version ≡ c.server.version
    → claims.kind ≡ c.kind
    → claims.capability ≡ c.name
    → claims.view ≡ request.view
    → claims.routing_scope ≡ c.routing_scope
    → claims.auth_profile ≡ c.auth_profile
    → resolve_capability_view t now claims.server claims.version claims.kind claims.capability
        claims.view
      ≡ some r
    → is_visible claims.view r.auth_partition_hash ≡ true
    → (any (binds claims) r.bindings
        || (is_empty claims.routing_scope && is_empty claims.auth_profile))
      ≡ true
    → (resolve_capability_view t now c.server.identity.canonical_name c.server.version c.kind c.name
          request.view
        ≡ some r)
      × (is_visible request.view r.auth_partition_hash ≡ true)
      × ((any (is_bound c) r.bindings || (is_empty c.routing_scope && is_empty c.auth_profile))
          ≡ true)
from-claims t now claims request c r server version kind name view scope profile found visible
      bound =
    (
      rw (← server, ← version, ← kind, ← name, ← view) found,
      rw (← view) visible,
      rw (← scope, ← profile) bound,
    )

-- Over the catalog of the registry, Describe returns a capability only if the tables hold it in the
-- public view or in that of the request, never in another, and hold a binding of it to the scope and
-- the profile that it is routed by, if it is routed by any.
pub describe_in_view :
    (b : Broker) (sql : Sql) (compile : Text → Option (Text → Bool)) (t : CatalogTables) (now : ℕ)
    (ref : Text) (request : RequestContext) (c : Capability)
    → (describe (record b { catalog = new_registry sql compile t now }) now ref request).1 ≡ ok c
    → (r : CapabilityRecord) × (resolve_capability_view t now c.server.identity.canonical_name
          c.server.version c.kind c.name request.view
        ≡ some r)
      × (is_visible request.view r.auth_partition_hash ≡ true)
      × ((any (is_bound c) r.bindings || (is_empty c.routing_scope && is_empty c.auth_profile))
          ≡ true)
describe_in_view b sql compile t now ref request c h =
    let s =
      describe_sound (record b { catalog = new_registry sql compile t now }) now ref request c h in
    let n = s.names in
    let f = resolve-IsFrom t now s.claims s.resolved (unfold new_registry in s.in_catalog) in
    let (found, visible, bound) =
      from-claims t now s.claims request c f.source n.server n.version n.kind n.name n.view
        n.routing_scope n.auth_profile f.found f.visible f.bound in
    (f.source, found, visible, bound)
