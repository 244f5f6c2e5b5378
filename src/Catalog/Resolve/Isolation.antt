-- ===== src/Catalog/Resolve/Isolation.antt =====
-- Which view ResolveCapabilityView of internal/registry/capability.go reads.
use skillex.Prelude.{
  ℕ, ◌≡◌, refl, sym, ◌∙◌, ap, Bool, true, false, ◌&&◌, ◌||◌, not, none, some, List, [], ◌∷◌, Text,
  text_eq, text_eq_iff, select, any, sort_by, any-sort_by, insert_by, arith, Option-cases,
  Bool-cases, ◌⊎◌, codes, inl, inr,
}
use skillex.Catalog.Types.{CapabilityRecord, CatalogTables}
use skillex.Catalog.Rows.{Joined, join_rows, hydrate, query_capabilities}
use skillex.Catalog.Resolve.{
  has_identity, is_visible, first_of, is_own, own_first, view_rows, resolve_capability_view,
}

-- What all of a list has, its first has.
any-first_of :
    {A : Type 0} (p : A → Bool) (xs : List A) {x : A}
    → any p xs ≡ false
    → first_of xs ≡ some x
    → p x ≡ false
any-first_of p [] h e = cc
any-first_of p (y ∷ ys) {x} h e = let same : y ≡ x = cc in rw (← same) (ground arith)

none_unselected :
    {A : Type 0} (p : A → Bool) (xs : List A) → any (λ x. not (p x)) (select p xs) ≡ false
none_unselected p [] = refl
none_unselected p (x ∷ xs) = ground (arith, none_unselected p xs)

any-select :
    {A : Type 0} (p q : A → Bool) (xs : List A) → any p (select q xs) ≡ any (λ x. q x && p x) xs
any-select p q [] = refl
any-select p q (x ∷ xs) = ground (arith, any-select p q xs)

abbrev own_head : Text → List Joined → Bool
own_head view [] = false
own_head view (j ∷ js) = is_own view j

own_head-insert_by :
    (view : Text) (j : Joined) (js : List Joined)
    → own_head view (insert_by (own_first view) j js) ≡ (is_own view j || own_head view js)
unfolding insert_by
own_head-insert_by view j [] = ground arith
own_head-insert_by view j (k ∷ js) = ground arith

-- The first of the sorted rows is of the caller's own view if any row is.
own_head-sort_by :
    (view : Text) (js : List Joined)
    → own_head view (sort_by (own_first view) js) ≡ any (is_own view) js
unfolding sort_by
own_head-sort_by view [] = refl
own_head-sort_by view (j ∷ js) =
    own_head-insert_by view j (sort_by (own_first view) js)
    ∙ ap (λ b. is_own view j || b) (own_head-sort_by view js)

any_same : {A : Type 0} (p q : A → Bool) (xs : List A) → ((x : A) → p x ≡ q x) → any p xs ≡ any q xs
any_same p q [] same = refl
any_same p q (x ∷ xs) same = ground (arith, same x, any_same p q xs same)

-- A row of the catalog holds the capability in the caller's own view.
abbrev pub holds_own : Text → Text → Text → Text → Text → Joined → Bool
holds_own server version kind name view j =
    text_eq j.server.canonical_name server
    && (text_eq j.version.version version
        && (text_eq j.capability.kind kind
            && (text_eq j.capability.name name && text_eq j.view.auth_partition_hash view)))

own_rows :
    (t : CatalogTables) (server version kind name view : Text)
    → any (is_own view) (view_rows t server version kind name view)
      ≡ any (holds_own server version kind name view) (join_rows t t.capabilities)
own_rows t server version kind name view =
    any-select (is_own view)
      (λ (j : Joined).
        has_identity server version kind name j && is_visible view j.view.auth_partition_hash)
      (join_rows t t.capabilities)
    ∙ any_same _ (holds_own server version kind name view) (join_rows t t.capabilities)
        (λ j. ground arith)

public_or_own_view :
    (view partition : Text)
    → is_visible view partition ≡ true
    → (partition ≡ codes "public") ⊎ (partition ≡ view)
public_or_own_view view partition h = elim (Bool-cases (text_eq partition (codes "public"))) [
  | inl e ↦ inl ((text_eq_iff partition (codes "public")).0 e)
  | inr e ↦ inr ((text_eq_iff partition view).0 (ground arith))
]

-- A record that was resolved, for a caller with a view.
pub record IsResolved (t : CatalogTables) (server version kind name view : Text)
    (r : CapabilityRecord) : Type 0 where
  pub server_name : r.capability.server.identity.canonical_name ≡ server
  pub version_name : r.capability.server.version ≡ version
  pub kind_name : r.capability.kind ≡ kind
  pub capability_name : r.capability.name ≡ name
  pub visible : is_visible view r.auth_partition_hash ≡ true
  pub public_or_own : (r.auth_partition_hash ≡ codes "public") ⊎ (r.auth_partition_hash ≡ view)
  pub own_if_any :
      text_eq r.auth_partition_hash view
      ≡ any (holds_own server version kind name view) (join_rows t t.capabilities)

resolved_row :
    (t : CatalogTables) (now : ℕ) (server version kind name view : Text) {r : CapabilityRecord}
    → resolve_capability_view t now server version kind name view ≡ some r
    → (j : Joined) × (first_of
          (sort_by (own_first view) (view_rows t server version kind name view))
        ≡ some j)
      × (hydrate t now j ≡ r)
unfolding resolve_capability_view query_capabilities
resolved_row t now server version kind name view {r} h =
    let rows = sort_by (own_first view) (view_rows t server version kind name view) in
    elim (Option-cases (first_of rows)) [
      | inl e ↦ let k : none ≡ some r = rw (resolve_capability_view, e) at h in cc
      | inr (j, e) ↦
          let k : some (hydrate t now j) ≡ some r = rw (resolve_capability_view, e) at h in
          (j, e, cc)
    ]

own_head-first_of :
    (view : Text) (js : List Joined) {j : Joined}
    → first_of js ≡ some j
    → own_head view js ≡ is_own view j
own_head-first_of view [] h = cc
own_head-first_of view (k ∷ js) {j} h = let same : k ≡ j = cc in ap (is_own view) same

-- ResolveCapabilityView gives only a capability of the server, version, kind and name asked for, whose
-- view is public or the caller's own, never that of another; and it is the caller's own exactly if
-- some row of the catalog has the capability in that view.
pub resolve_capability_view_isolated :
    (t : CatalogTables) (now : ℕ) (server version kind name view : Text) {r : CapabilityRecord}
    → resolve_capability_view t now server version kind name view ≡ some r
    → IsResolved t server version kind name view r
unfolding hydrate
resolve_capability_view_isolated t now server version kind name view {r} h =
    let rows = view_rows t server version kind name view in
    let (j, found, same) = resolved_row t now server version kind name view h in
    let kept = λ (j : Joined).
      has_identity server version kind name j && is_visible view j.view.auth_partition_hash in
    let all_kept =
      any-sort_by (own_first view) (λ j. not (kept j)) rows
      ∙ none_unselected kept (join_rows t t.capabilities) in
    let is_kept = any-first_of (λ j. not (kept j)) (sort_by (own_first view) rows) all_kept found in
    rw (← same) (record {
      server_name = ground (arith, text_eq_iff j.server.canonical_name server);
      version_name = ground (arith, text_eq_iff j.version.version version);
      kind_name = ground (arith, text_eq_iff j.capability.kind kind);
      capability_name = ground (arith, text_eq_iff j.capability.name name);
      visible = ground arith;
      public_or_own = public_or_own_view view j.view.auth_partition_hash (ground arith);
      own_if_any =
          sym (own_head-first_of view (sort_by (own_first view) rows) found)
          ∙ own_head-sort_by view rows
          ∙ own_rows t server version kind name view;
    })
