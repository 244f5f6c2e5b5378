-- ===== src/Catalog/Page.antt =====
-- QueryCapabilityPage of internal/registry/capability.go, with matchingCapabilityGlobIDs of path.go and
-- searchTokens of registry.go. What SQLite computes inside a statement is the record `Sql`.
pub mod Isolation
use skillex.Prelude.{
  ℕ, ◌+◌, ◌==◌, Bool, true, false, ◌&&◌, ◌||◌, not, Option, none, some, List, [], ◌∷◌, ◌++◌, map,
  Text, codes, is_empty, text_eq, text_lt, trim_prefix, trim_space, elem, length, take, drop,
  select, any, sort_by, leb, if◌then◌else◌,
}
use skillex.Capability.Availability
use skillex.Capability.Integers.{ℤ, pos, negsuc}
use skillex.Registry.Path.{PatternType, universal, prefix, exact, glob, glob_match_path}
use skillex.Registry.Tables.{Row, rows_of}
use skillex.Registry.Lookup.{contains, is_universal, is_glob, distinct}
use skillex.Catalog.Types.{Binding, CapabilityRecord, BindingValue, Document, CatalogTables}
use skillex.Catalog.Rows.{Joined, join_rows, query_capabilities}
use skillex.Catalog.Resolve.{is_visible}

pub record Sql : Type 0 where
  -- value LIKE pattern
  pub like : Text → Text → Bool
  -- datetime(expires) < datetime('now')
  pub is_before_now : ℕ → ℕ → Bool
  -- MATCH of any of the tokens, and the rank of a row, less being better
  pub matches : List Text → Document → Bool
  pub rank : List Text → List (Row Document) → ℕ → ℕ

-- CapabilityFacet and CapabilityFacets
pub record CapabilityFacet : Type 0 where
  pub value : Text
  pub count : ℕ

pub record CapabilityFacets : Type 0 where
  pub servers : List CapabilityFacet
  pub kinds : List CapabilityFacet
  pub availability : List CapabilityFacet

pub record CapabilityQuery : Type 0 where
  pub search : Text
  pub path : Text
  pub server : Text
  pub kind : Text
  pub availability : Text
  pub view : Text
  pub limit : ℤ
  pub offset : ℤ
  pub all_views : Bool

pub record CapabilityPage : Type 0 where
  pub records : List CapabilityRecord
  pub match_count : ℕ
  pub facets : CapabilityFacets

abbrev pub is_separator : ℕ → Bool
is_separator c = c == 0x20 || (c == 0x09 || (c == 0x0a || (c == 0x0d || c == 0x2c)))

-- strings.FieldsFunc, with empty fields
unfoldable pub split_where : (ℕ → Bool) → Text → List Text
split_where p [] = [] ∷ []
split_where p (c ∷ s) = elim (split_where p s) [
  | [] ↦ []
  | field ∷ fields ↦ if p c then [] ∷ field ∷ fields else (c ∷ field) ∷ fields
]

-- searchTokens
unfoldable pub search_tokens : Text → List Text
unfolding split_where trim_space
search_tokens s =
    select (λ token. not (is_empty token)) (map trim_space (split_where is_separator s))

abbrev pub is_exact : PatternType → Bool
is_exact exact = true
is_exact _ = false

abbrev pub is_prefix : PatternType → Bool
is_prefix prefix = true
is_prefix _ = false

abbrev pub percent : Text
percent = codes "%"

module _ (sql : Sql) (compile : Text → Option (Text → Bool)) where
  abbrev pub glob_fits : Text → BindingValue → Bool
  glob_fits path v =
      is_glob v.pattern_type
      && ((is_empty v.path_prefix || sql.like path (v.path_prefix ++ percent))
          && glob_match_path compile v.binding.scope path)

  -- matchingCapabilityGlobIDs
  unfoldable pub matching_capability_glob_ids : List (Row BindingValue) → Text → List ℕ
  matching_capability_glob_ids [] path = []
  matching_capability_glob_ids ((id, v) ∷ rows) path =
      let rest = matching_capability_glob_ids rows path in
      if glob_fits path v then id ∷ rest else rest

  -- bindingConditions of a capability
  unfoldable pub binding_fits : List ℕ → Text → ℕ → BindingValue → Bool
  binding_fits glob_ids path id v =
      is_universal v.pattern_type
      || ((is_exact v.pattern_type && text_eq v.path_prefix path)
          || ((is_prefix v.pattern_type && sql.like path (v.path_prefix ++ percent))
              || (is_glob v.pattern_type && contains id glob_ids)))

  -- The condition of a path; filepath.ToSlash changes nothing where the separator is a slash.
  unfoldable pub path_fits : CatalogTables → Text → Joined → Bool
  unfolding matching_capability_glob_ids binding_fits trim_prefix
  path_fits t path j =
      let normal = trim_prefix path (codes "./") in
      is_empty path
      || any (binding_fits (matching_capability_glob_ids t.bindings normal) normal j.capability.id)
          (rows_of j.capability.id t.bindings)

  abbrev pub is_stale : ℕ → Option ℕ → Bool
  is_stale now none = false
  is_stale now (some expires) = sql.is_before_now expires now

  -- availabilityExpression
  unfoldable pub availability_expression : ℕ → Joined → Text
  availability_expression now j =
      if is_stale now j.view.expires_at then Availability.stale else j.capability.availability

  unfoldable pub search_fits : CatalogTables → List Text → Joined → Bool
  search_fits t [] j = true
  search_fits t (token ∷ tokens) j =
      any (sql.matches (token ∷ tokens)) (rows_of j.capability.id t.search)

  -- A condition that is there only for a value that is given.
  abbrev pub given : Text → Text → Bool
  given value actual = is_empty value || text_eq actual value

  -- The conditions of the statement, in one.
  unfoldable pub query_fits : CatalogTables → ℕ → CapabilityQuery → Joined → Bool
  unfolding search_tokens search_fits availability_expression path_fits
  query_fits t now q j =
      search_fits t (search_tokens q.search) j
      && ((q.all_views || is_visible q.view j.view.auth_partition_hash)
          && (given q.server j.server.canonical_name
              && (given q.kind j.capability.kind
                  && (given q.availability (availability_expression now j)
                      && path_fits t q.path j))))

  -- GROUP BY value ORDER BY value, with COUNT(*)
  unfoldable pub facet_values : List Text → List CapabilityFacet
  unfolding distinct
  facet_values values =
      map (λ v. record { value = v; count = length (select (λ w. text_eq w v) values) })
        (sort_by text_lt (distinct values))

  -- queryCapabilityMetadata, without the count
  unfoldable pub facets_of : ℕ → List Joined → CapabilityFacets
  unfolding facet_values availability_expression
  facets_of now rows = record {
    servers = facet_values (map (λ j. j.server.canonical_name) rows);
    kinds = facet_values (map (λ j. j.capability.kind) rows);
    availability = facet_values (map (availability_expression now) rows);
  }

  -- ORDER BY s.canonical_name, sv.version, c.kind, c.name
  abbrev pub name_less : Joined → Joined → Bool
  name_less a b =
      text_lt a.server.canonical_name b.server.canonical_name
      || (text_eq a.server.canonical_name b.server.canonical_name
          && (text_lt a.version.version b.version.version
              || (text_eq a.version.version b.version.version
                  && (text_lt a.capability.kind b.capability.kind
                      || (text_eq a.capability.kind b.capability.kind
                          && text_lt a.capability.name b.capability.name)))))

  -- The same behind the rank, where there is a search.
  unfoldable pub row_less : CatalogTables → List Text → Joined → Joined → Bool
  row_less t [] a b = name_less a b
  row_less t (token ∷ tokens) a b =
      let rank = sql.rank (token ∷ tokens) t.search in
      not (leb (rank b.capability.id) (rank a.capability.id))
      || (rank a.capability.id == rank b.capability.id && name_less a b)

  -- LIMIT and OFFSET, for numbers that are not negative
  abbrev pub limited {ℓ} : {A : Type ℓ} → ℕ → ℕ → List A → List A
  limited limit offset rows = if limit == 0 then drop offset rows else take limit (drop offset rows)

  abbrev pub selected_rows : CatalogTables → ℕ → CapabilityQuery → List Joined
  selected_rows t now q = select (query_fits t now q) (join_rows t t.capabilities)

  unfoldable pub page_from : CatalogTables → ℕ → CapabilityQuery → ℕ → ℕ → CapabilityPage
  unfolding query_fits facets_of row_less query_capabilities
  page_from t now q limit offset =
      let rows = selected_rows t now q in
      record {
        records =
            if leb (length rows) offset
            then []
            else query_capabilities t now
                (limited limit offset (sort_by (row_less t (search_tokens q.search)) rows));
        match_count = length rows;
        facets = facets_of now rows;
      }

  -- QueryCapabilityPage
  unfoldable pub query_capability_page : CatalogTables → ℕ → CapabilityQuery → Option CapabilityPage
  unfolding page_from
  query_capability_page t now q = elim q.limit [
    | negsuc n ↦ none
    | pos limit ↦ elim q.offset [
      | negsuc m ↦ none
      | pos offset ↦ some (page_from t now q limit offset)
    ]
  ]
