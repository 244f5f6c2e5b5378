-- ===== src/Registry/Lookup.antt =====
-- QueryByPath of internal/registry/path.go, and QueryByTopic, QueryByTags, QueryByPackage, Query and
-- AllSkills of internal/registry/registry.go. The order of rows that a statement leaves open is that
-- of the table.
pub mod ByPath
pub mod ByFilter
pub mod HasAll
pub mod Discovery
use skillex.Prelude.{
  ℕ, zero, suc, Bool, true, false, ◌&&◌, ◌||◌, not, Option, none, some, List, [], ◌∷◌, ◌++◌, map,
  Text, is_empty, text_eq, text_lt, elem, length, ◌==◌, select, any, sort_by, if◌then◌else◌,
}
use skillex.Registry.Path.{
  PatternType, universal, prefix, exact, glob, normalize, path_prefixes, glob_match_path,
}
use skillex.Registry.Tables.{Row}
use skillex.Registry.Store.{Skill, SkillRow, ScopeValue, Tables, populate_meta}

-- A Go `map[int64]bool` in which every key is true, as the list of its keys.
abbrev pub contains : ℕ → List ℕ → Bool
contains id ids = any (λ j. j == id) ids

abbrev pub is_universal : PatternType → Bool
is_universal universal = true
is_universal _ = false

-- pattern_type IN ('prefix', 'exact')
abbrev pub is_indexed : PatternType → Bool
is_indexed prefix = true
is_indexed exact = true
is_indexed _ = false

abbrev pub is_glob : PatternType → Bool
is_glob glob = true
is_glob _ = false

-- SELECT skill_id … WHERE
unfoldable pub ids_where {ℓ} : {A : Type ℓ} → (A → Bool) → List (Row A) → List ℕ
ids_where p [] = []
ids_where p ((id, a) ∷ rows) = let rest = ids_where p rows in if p a then id ∷ rest else rest

-- The loop over the rows of complex patterns.
unfoldable pub glob_loop :
    (Text → Option (Text → Bool)) → Text → List (Row ScopeValue) → List ℕ → List ℕ
glob_loop compile path [] ids = ids
glob_loop compile path ((id, v) ∷ rows) ids = glob_loop compile path rows (
    if is_glob v.pattern_type && (not (contains id ids) && glob_match_path compile v.scope path)
    then id ∷ ids
    else ids)

-- The ids that QueryByPath collects for a normalised path.
unfoldable pub matched_ids : (Text → Option (Text → Bool)) → List (Row ScopeValue) → Text → List ℕ
unfolding ids_where glob_loop
matched_ids compile rows path =
    let prefixes = path_prefixes path in
    glob_loop compile path rows (
      ids_where (λ v. is_universal v.pattern_type) rows
      ++ ids_where (λ v. is_indexed v.pattern_type && elem v.path_prefix prefixes) rows)

-- SELECT … FROM skills WHERE id IN (…), with the metadata of each row
unfoldable pub fetch : Tables → List ℕ → List Skill
fetch t ids = map (populate_meta t) (select (λ r. contains r.id ids) t.skills)

abbrev pub path_less : Skill → Skill → Bool
path_less a b = text_lt a.path b.path

-- QueryByPath
unfoldable pub query_by_path : (Text → Option (Text → Bool)) → Tables → Text → List Skill
unfolding matched_ids fetch normalize
query_by_path compile t path =
    if is_empty path
    then []
    else sort_by path_less (fetch t (matched_ids compile t.scopes (normalize path)))

-- AllSkills
unfoldable pub all_skills : Tables → List Skill
all_skills t = sort_by path_less (map (populate_meta t) t.skills)

-- COUNT(DISTINCT value) over the values of one skill that are among those asked for
unfoldable pub distinct : List Text → List Text
unfolding elem
distinct [] = []
distinct (x ∷ xs) = let rest = distinct xs in if elem x rest then rest else x ∷ rest

-- GROUP BY skill_id HAVING COUNT(DISTINCT value) = len(asked)
unfoldable pub has_all : List Text → List Text → Bool
unfolding distinct elem
has_all asked own = length (distinct (select (λ x. elem x asked) own)) == length asked

-- QueryByTopic
unfoldable pub query_by_topic : Tables → List Text → List Skill
unfolding has_all
query_by_topic t [] = []
query_by_topic t (x ∷ xs) = select (λ s. has_all (x ∷ xs) s.topics) (map (populate_meta t) t.skills)

-- QueryByTags
unfoldable pub query_by_tags : Tables → List Text → List Skill
unfolding has_all
query_by_tags t [] = []
query_by_tags t (x ∷ xs) = select (λ s. has_all (x ∷ xs) s.tags) (map (populate_meta t) t.skills)

-- QueryByPackage, for a name that is not empty: a column that is NULL equals nothing.
unfoldable pub query_by_package : Tables → Text → List Skill
unfolding text_eq
query_by_package t pkg =
    select (λ s. not (is_empty s.package_name) && text_eq s.package_name pkg)
      (map (populate_meta t) t.skills)

abbrev pub ids_of : List Skill → List ℕ
ids_of = map (λ s. s.id)

-- The filters of Query that are set, each as its set of ids.
unfoldable pub filter_sets : Tables → Text → List Text → List Text → List (List ℕ)
filter_sets t pkg topics tags =
    (if not (length topics == 0) then ids_of (query_by_topic t topics) ∷ [] else [])
    ++ ((if not (length tags == 0) then ids_of (query_by_tags t tags) ∷ [] else [])
        ++ (if not (is_empty pkg) then ids_of (query_by_package t pkg) ∷ [] else []))

-- The loop that keeps the ids of the first set that are in all the others.
unfoldable pub intersect : List ℕ → List (List ℕ) → List ℕ
intersect merged [] = merged
intersect merged (ids ∷ sets) = intersect (select (λ id. contains id ids) merged) sets

-- Query, which leaves its path to the caller.
unfoldable pub query : Tables → Text → List Text → List Text → List Skill
unfolding filter_sets intersect fetch
query t pkg topics tags = elim (filter_sets t pkg topics tags) [
  | [] ↦ []
  | ids ∷ sets ↦ fetch t (intersect ids sets)
]
