-- ===== src/Catalog/Suggest.antt =====
-- ApplyCapabilitySuggestions of internal/registry/capability.go. json.Marshal of a capability is
-- `marshal`; a missing digest or encoding is the error of the whole.
pub mod Safety
use skillex.Prelude.{
  ◌==◌, Bool, true, false, ◌&&◌, ◌||◌, Option, none, some, List, [], ◌∷◌, ◌++◌, map, Text, codes,
  text_eq, elem, length, select, any, if◌then◌else◌, Result, ok, err, ◌>>=◌,
}
use skillex.Errors.{Error, other}
use skillex.Capability.Availability
use skillex.Capability.Kind
use skillex.Capability.Model.{Capability, Encoding, with_computed_schema_digest, or_fail}
use skillex.Catalog.Types.{Binding, CapabilityRecord, Suggestion}
use skillex.Catalog.Resolve.{public_partition}

-- existing == candidate
abbrev pub same_binding : Binding → Binding → Bool
same_binding a b =
    text_eq a.scope b.scope
    && (text_eq a.relationship b.relationship && text_eq a.auth_profile b.auth_profile)

-- appendUniqueCapabilityBinding
unfoldable pub append_unique_binding : List Binding → Binding → List Binding
append_unique_binding bindings candidate =
    if any (λ existing. same_binding existing candidate) bindings
    then bindings
    else bindings ++ candidate ∷ []

-- The binding of a suggestion to a scope.
abbrev pub suggested_binding : Suggestion → Text → Binding
suggested_binding s scope = record {
  scope = scope;
  relationship = s.relationship;
  auth_profile = [];
}

-- The loop over the scopes.
unfoldable pub bind_scopes : Suggestion → List Text → List Binding → List Binding
unfolding append_unique_binding
bind_scopes s [] bindings = bindings
bind_scopes s (scope ∷ scopes) bindings =
    bind_scopes s scopes (append_unique_binding bindings (suggested_binding s scope))

-- Whether a suggestion is about a record.
unfoldable pub applies : Suggestion → CapabilityRecord → Bool
applies s r =
    text_eq r.capability.server.identity.canonical_name s.server_ref
    && (text_eq r.capability.server.version s.version
        && (length s.capabilities == 0 || elem r.capability.name s.capabilities))

-- One round of the loop over the records.
unfoldable pub overlay : Suggestion → CapabilityRecord → CapabilityRecord
unfolding applies bind_scopes
overlay s r =
    if applies s r
    then record r {
      capability = record r.capability { availability = Availability.suggested };
      bindings = bind_scopes s s.scopes r.bindings;
    }
    else r

-- The keys of `matched`.
abbrev pub matched_names : Suggestion → List CapabilityRecord → List Text
matched_names s records = map (λ r. r.capability.name) (select (applies s) records)

module _ (enc : Encoding) (marshal : Capability → Option Text) where
  -- The capability of a name that is not in the catalog.
  abbrev pub unindexed : Suggestion → Text → Capability
  unindexed s name = record {
    server = record {
      identity = record { canonical_name = s.server_ref; publisher = [] };
      version = s.version;
      package_digest = [];
      status = [];
    };
    kind = Kind.tool;
    name = name;
    title = [];
    description =
        codes "Suggested by " ++ s.source_ref ++ codes "; full metadata is not yet indexed.";
    input_schema = [];
    output_schema = [];
    schema_digest = [];
    availability = Availability.suggested;
    routing_scope = [];
    auth_profile = [];
  }

  abbrev pub placeholder_record : Suggestion → Capability → Text → CapabilityRecord
  placeholder_record s selected raw = record {
    id = 0;
    capability = selected;
    expires_at = none;
    visibility = public_partition;
    auth_partition_hash = public_partition;
    cache_scope = public_partition;
    source_type = s.source_type;
    source_ref = s.source_ref;
    risk = [];
    bindings = map (suggested_binding s) s.scopes;
    raw_definition = raw;
    transports = [];
  }

  -- The record of a name that is not in the catalog.
  unfoldable pub placeholder : Suggestion → Text → Result Error CapabilityRecord
  placeholder s name = do
    selected ← with_computed_schema_digest enc (unindexed s name)
    raw ← or_fail (marshal selected)
    ok (placeholder_record s selected raw)

  -- The loop over the names, those in the catalog being passed over.
  unfoldable pub placeholders :
      Suggestion → List Text → List Text → Result Error (List CapabilityRecord)
  unfolding placeholder
  placeholders s matched [] = ok []
  placeholders s matched (name ∷ names) =
      let rest = placeholders s matched names in
      if elem name matched then rest else (do r ← placeholder s name; rs ← rest; ok (r ∷ rs))

  -- One round of the loop over the suggestions.
  unfoldable pub apply_suggestion :
      Suggestion → List CapabilityRecord → Result Error (List CapabilityRecord)
  unfolding overlay placeholders
  apply_suggestion s records = do
    new ← placeholders s (matched_names s records) s.capabilities
    ok (map (overlay s) records ++ new)

  -- ApplyCapabilitySuggestions
  unfoldable pub apply_capability_suggestions :
      List CapabilityRecord → List Suggestion → Result Error (List CapabilityRecord)
  unfolding apply_suggestion
  apply_capability_suggestions records [] = ok records
  apply_capability_suggestions records (s ∷ suggestions) = do
    next ← apply_suggestion s records
    apply_capability_suggestions next suggestions
