-- ===== src/Catalog/Suggest/Safety.antt =====
-- What ApplyCapabilitySuggestions of internal/registry/capability.go leaves alone.
use skillex.Prelude.{
  ◌≡◌, ◌⊎◌, refl, true, Option, List, [], ◌∷◌, ◌++◌, map, Text, text_eq_refl, elem, any, All, ok,
  >>=-eq-ok, arith, Bool-cases, inl, inr,
}
use skillex.Capability.Model.{Capability, Encoding, with_computed_schema_digest, or_fail}
use skillex.Catalog.Types.{Binding, CapabilityRecord, Suggestion}
use skillex.Catalog.Resolve.{public_partition}
use skillex.Catalog.Suggest.{
  same_binding, append_unique_binding, suggested_binding, bind_scopes, applies, overlay,
  matched_names, unindexed, placeholder_record, placeholder, placeholders, apply_suggestion,
  apply_capability_suggestions,
}

All-append : {A : Type 0} (P : A → Type 0) (xs ys : List A) → All P xs → All P ys → All P (xs ++ ys)
All-append P [] ys p q = q
All-append P (x ∷ xs) ys p q = (p.0, All-append P xs ys p.1 q)

All-append_unique_binding :
    (P : Binding → Type 0) (bindings : List Binding) (b : Binding)
    → All P bindings
    → P b
    → All P (append_unique_binding bindings b)
unfolding append_unique_binding
All-append_unique_binding P bindings b p q =
    elim (Bool-cases (any (λ existing. same_binding existing b) bindings)) [
      | inl e ↦ rw e p
      | inr e ↦ rw e (All-append P bindings (b ∷ []) p (q, tt))
    ]

All-bind_scopes :
    (P : Binding → Type 0) (s : Suggestion) (scopes : List Text) (bindings : List Binding)
    → ((scope : Text) → P (suggested_binding s scope))
    → All P bindings
    → All P (bind_scopes s scopes bindings)
unfolding bind_scopes
All-bind_scopes P s [] bindings new p = p
All-bind_scopes P s (scope ∷ scopes) bindings new p =
    All-bind_scopes P s scopes (append_unique_binding bindings (suggested_binding s scope)) new
      (All-append_unique_binding P bindings (suggested_binding s scope) p (new scope))

-- A record without what a suggestion may change.
abbrev pub fixed_part : CapabilityRecord → CapabilityRecord
fixed_part r = record r { capability = record r.capability { availability = [] }; bindings = [] }

-- A binding that was there before, or names no profile.
abbrev pub IsHarmless : List Binding → Binding → Type 0
IsHarmless old b = (any (same_binding b) old ≡ true) ⊎ (b.auth_profile ≡ [])

pub record Overlaid (r r' : CapabilityRecord) : Type 0 where
  pub unchanged : fixed_part r' ≡ fixed_part r
  pub harmless : All (IsHarmless r.bindings) r'.bindings

-- A record that only says that a capability exists.
pub record IsPlaceholder (r : CapabilityRecord) : Type 0 where
  pub no_transport : r.transports ≡ []
  pub is_public : r.auth_partition_hash ≡ public_partition
  pub no_profile : All (λ b. b.auth_profile ≡ []) r.bindings

-- The records there were, overlaid, and then placeholders.
abbrev pub AreOverlaid : List CapabilityRecord → List CapabilityRecord → Type 0
AreOverlaid [] new = All IsPlaceholder new
AreOverlaid (r ∷ rs) [] = ⊥
AreOverlaid (r ∷ rs) (r' ∷ rs') = Overlaid r r' × AreOverlaid rs rs'

All-of_any :
    (all : List Binding) (bs : List Binding)
    → ((b : Binding) → any (same_binding b) bs ≡ true → any (same_binding b) all ≡ true)
    → All (IsHarmless all) bs
All-of_any all [] h = tt
All-of_any all (b ∷ bs) h = (
  inl (
      h b
        (rw (text_eq_refl b.scope, text_eq_refl b.relationship, text_eq_refl b.auth_profile) refl)),
  All-of_any all bs (λ c g. h c (ground (arith, g))),
)

Overlaid-refl : (r : CapabilityRecord) → Overlaid r r
Overlaid-refl r = record {
  unchanged = refl;
  harmless = All-of_any r.bindings r.bindings (λ b h. h);
}

Overlaid-overlay :
    (s : Suggestion) (r r' : CapabilityRecord) → Overlaid r r' → Overlaid r (overlay s r')
unfolding overlay
Overlaid-overlay s r r' o = elim (Bool-cases (applies s r')) [
  | inl e ↦ rw e (record {
    unchanged = o.unchanged;
    harmless =
        All-bind_scopes (IsHarmless r.bindings) s s.scopes r'.bindings (λ scope. inr refl)
          o.harmless;
  })
  | inr e ↦ rw e o
]

IsPlaceholder-overlay :
    (s : Suggestion) (r : CapabilityRecord) → IsPlaceholder r → IsPlaceholder (overlay s r)
unfolding overlay
IsPlaceholder-overlay s r p = elim (Bool-cases (applies s r)) [
  | inl e ↦ rw e (record {
    no_transport = p.no_transport;
    is_public = p.is_public;
    no_profile =
        All-bind_scopes (λ b. b.auth_profile ≡ []) s s.scopes r.bindings (λ scope. refl)
          p.no_profile;
  })
  | inr e ↦ rw e p
]

All-map :
    {A B : Type 0} (P : A → Type 0) (Q : B → Type 0) (f : A → B) (xs : List A)
    → ((x : A) → P x → Q (f x))
    → All P xs
    → All Q (map f xs)
All-map P Q f [] h p = tt
All-map P Q f (x ∷ xs) h p = (h x p.0, All-map P Q f xs h p.1)

AreOverlaid-refl : (rs : List CapabilityRecord) → AreOverlaid rs rs
AreOverlaid-refl [] = tt
AreOverlaid-refl (r ∷ rs) = (Overlaid-refl r, AreOverlaid-refl rs)

-- One suggestion more.
AreOverlaid-next :
    (s : Suggestion) (old current new : List CapabilityRecord)
    → All IsPlaceholder new
    → AreOverlaid old current
    → AreOverlaid old (map (overlay s) current ++ new)
AreOverlaid-next s [] current new n o =
    All-append IsPlaceholder (map (overlay s) current) new
      (All-map IsPlaceholder IsPlaceholder (overlay s) current (IsPlaceholder-overlay s) o) n
AreOverlaid-next s (r ∷ rs) [] new n o = absurd o
AreOverlaid-next s (r ∷ rs) (r' ∷ rs') new n o =
    (Overlaid-overlay s r r' o.0, AreOverlaid-next s rs rs' new n o.1)

All-suggested :
    (s : Suggestion) (scopes : List Text)
    → All (λ b. b.auth_profile ≡ []) (map (suggested_binding s) scopes)
All-suggested s [] = tt
All-suggested s (scope ∷ scopes) = (refl, All-suggested s scopes)

module _ (enc : Encoding) (marshal : Capability → Option Text) where
  placeholder_record-IsPlaceholder :
      (s : Suggestion) (selected : Capability) (raw : Text)
      → IsPlaceholder (placeholder_record enc marshal s selected raw)
  placeholder_record-IsPlaceholder s selected raw = record {
    no_transport = refl;
    is_public = refl;
    no_profile = All-suggested s s.scopes;
  }

  placeholder-IsPlaceholder :
      (s : Suggestion) (name : Text) {r : CapabilityRecord}
      → placeholder enc marshal s name ≡ ok r
      → IsPlaceholder r
  unfolding placeholder
  placeholder-IsPlaceholder s name {r} h =
      let (selected, e, k) =
        >>=-eq-ok (with_computed_schema_digest enc (unindexed enc marshal s name)) _ h in
      let (raw, f, l) = >>=-eq-ok (or_fail (marshal selected)) _ k in
      let same : placeholder_record enc marshal s selected raw ≡ r = cc in
      rw (← same) (placeholder_record-IsPlaceholder s selected raw)

  placeholders-IsPlaceholder :
      (s : Suggestion) (matched names : List Text) {new : List CapabilityRecord}
      → placeholders enc marshal s matched names ≡ ok new
      → All IsPlaceholder new
  unfolding placeholders
  placeholders-IsPlaceholder s matched [] {new} h = let same : [] ≡ new = cc in rw (← same) tt
  placeholders-IsPlaceholder s matched (name ∷ names) {new} h =
      elim (Bool-cases (elem name matched)) [
        | inl e ↦ placeholders-IsPlaceholder s matched names (rw (placeholders, e) at h)
        | inr e ↦
            let k = rw (placeholders, e) at h in
            let (r, f, l) = >>=-eq-ok (placeholder enc marshal s name) _ k in
            let (rs, g, m) = >>=-eq-ok (placeholders enc marshal s matched names) _ l in
            let same : r ∷ rs ≡ new = cc in
            rw (← same)
              (placeholder-IsPlaceholder s name f, placeholders-IsPlaceholder s matched names g)
      ]

  suggested-from :
      (suggestions : List Suggestion) (old current result : List CapabilityRecord)
      → AreOverlaid old current
      → apply_capability_suggestions enc marshal current suggestions ≡ ok result
      → AreOverlaid old result
  unfolding apply_capability_suggestions apply_suggestion
  suggested-from [] old current result o h = let same : current ≡ result = cc in rw (← same) o
  suggested-from (s ∷ suggestions) old current result o h =
      let (next, e, k) = >>=-eq-ok (apply_suggestion enc marshal s current) _ h in
      let (new, f, l) =
        >>=-eq-ok (placeholders enc marshal s (matched_names s current) s.capabilities) _ e in
      let same : map (overlay s) current ++ new ≡ next = cc in
      let fresh = placeholders-IsPlaceholder s (matched_names s current) s.capabilities f in
      let step = AreOverlaid-next s old current new fresh o in
      suggested-from suggestions old next result (rw same at step) k

  -- The records of the catalog stay, in their order, with their transports, endpoints and sources, and
  -- only their availability and their bindings may change, every new binding naming no authentication
  -- profile; behind them come only public records without a transport and without a profile.
  pub apply_capability_suggestions_harmless :
      (records : List CapabilityRecord) (suggestions : List Suggestion)
      (result : List CapabilityRecord)
      → apply_capability_suggestions enc marshal records suggestions ≡ ok result
      → AreOverlaid records result
  apply_capability_suggestions_harmless records suggestions result h =
      suggested-from suggestions records records result (AreOverlaid-refl records) h
