-- ===== src/Query/Match.antt =====
-- Which skills a query finds: filterByPath, scopesMatchPath and the middle part of Engine.Execute in
-- internal/query/query.go. The full-text search of SQLite is the field `search_index`.
pub mod Reach
use skillex.Prelude.{
  ℕ, ◌+◌, ◌≡◌, refl, Bool, true, false, ◌&&◌, ◌||◌, not, Option, none, some, List, [], ◌∷◌, Text,
  is_empty, select, any, length, ltb, ◌==◌, if◌then◌else◌, arith, Bool-cases, inl, inr, Result,
}
use skillex.Errors.{Error}
use skillex.Registry.Path.{normalize, glob_match_path}
use skillex.Registry.Store.{Skill, Tables}
use skillex.Registry.Lookup.{contains, ids_of, query, query_by_path}
use skillex.Broker.Types.{Query, DiscoveryPage}
use skillex.Query.Types.{Params}
use skillex.Query.Cursor.{CursorCodec}

-- Engine, over the tables of its registry.
pub record Engine : Type 0 where
  pub tables : Tables
  -- glob.Compile with the separator '/'
  pub compile : Text → Option (Text → Bool)
  -- Registry.QueryBySearch
  pub search_index : Text → List Skill
  -- Registry.CapabilityCount
  pub capability_count : ℕ
  -- CapabilityDiscoverer.QueryPage; `none` is nil
  pub capabilities : Option (Query → Result Error DiscoveryPage)
  pub capability_context : Text
  pub capability_view : Text
  pub codec : CursorCodec

abbrev pub is_set : List Text → Bool
is_set values = ltb 0 (length values)

-- Params.hasFilters
unfoldable pub has_filters : Params → Bool
has_filters p =
    not (is_empty p.path)
    || (is_set p.topics
        || (is_set p.tags
            || (not (is_empty p.package_name)
                || (not (is_empty p.search)
                    || (not (is_empty p.server)
                        || (not (is_empty p.capability_kind) || not (is_empty p.availability)))))))

unfoldable pub has_classic_filters : Params → Bool
has_classic_filters p = is_set p.topics || (is_set p.tags || not (is_empty p.package_name))

-- scopesMatchPath, whose tests of a scope are those of globMatchPath
unfoldable pub scopes_match_path : (Text → Option (Text → Bool)) → List Text → Text → Bool
scopes_match_path compile scopes path =
    any (λ scope. glob_match_path compile scope (normalize path)) scopes

-- filterByPath
unfoldable pub filter_by_path : (Text → Option (Text → Bool)) → List Skill → Text → List Skill
filter_by_path compile skills path = select (λ s. scopes_match_path compile s.scopes path) skills

abbrev pub filter_if_path : Engine → Params → List Skill → List Skill
filter_if_path e p skills =
    if is_empty p.path then skills else filter_by_path e.compile skills p.path

-- The skills that the filters by topic, tag and package leave.
unfoldable pub classic_skills : Engine → Params → List Skill
classic_skills e p = filter_if_path e p (query e.tables p.package_name p.topics p.tags)

-- The skills that the search finds, among the classic ones if there are such filters.
unfoldable pub searched_skills : Engine → Params → List Skill
searched_skills e p =
    let found = e.search_index p.search in
    if has_classic_filters p
    then select (λ s. contains s.id (ids_of (classic_skills e p))) found
    else filter_if_path e p found

unfoldable pub match_skills : Engine → Params → List Skill
match_skills e p =
    if not (is_empty p.search)
    then searched_skills e p
    else if has_classic_filters p
    then classic_skills e p
    else query_by_path e.compile e.tables p.path
