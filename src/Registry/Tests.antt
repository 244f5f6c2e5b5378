-- ===== src/Registry/Tests.antt =====
-- Runs of the code of internal/registry, and the theorems about it at inputs where they apply.
use skillex.Prelude.{
  is_unique, ◌≡◌, refl, Bool, ◌&&◌, ◌||◌, Option, none, some, List, [], ◌∷◌, map, Text, codes,
  text_eq, true, index_any, has_suffix, contains_any, last_index, has_prefix, elem, any, ◌==◌,
}
use skillex.Registry.Path.{
  prefix, glob, normalize, classify_scope, classify_wild, literal_prefix, path_prefixes,
}
use skillex.Registry.Path.Prefixes.{ends_in_slash, elem-path_prefixes}
use skillex.Registry.Tables.{rows_of}
use skillex.Registry.Store.{
  Skill, Tables, empty, scope_text, find_row, insert_skill, get_skill_by_path,
}
use skillex.Registry.Store.Refinement.{
  Write, insert, delete, insert_test, run, run_map, forget_id, run-Represents,
}
use skillex.Registry.Lookup.Discovery.{reaches, query_by_path-run}
use skillex.Registry.Store.Invariant.{IsWellFormed, insert_skill-IsWellFormed}
use skillex.Registry.Store.Laws.{stored_id, get_skill_by_path-insert}
use skillex.Registry.Lookup.{query_by_path, query, has_all}
use skillex.Registry.Lookup.HasAll.{all_in, has_all-all_in}
use skillex.Registry.Lookup.ByFilter.{passes_all, query-passes_all}
use skillex.Registry.Lookup.ByPath.{
  covers, AreClassified, query_by_path-covers, insert_skill-AreClassified,
}

classify_prefix : classify_scope (codes "packages/ui/**") ≡ (prefix, codes "packages/ui/")
unfolding classify_scope classify_wild text_eq normalize index_any has_suffix contains_any
classify_prefix = refl

classify_glob : classify_scope (codes "packages/*/src/**") ≡ (glob, codes "packages/")
unfolding classify_scope classify_wild literal_prefix text_eq normalize index_any has_suffix
    contains_any last_index
classify_glob = refl

prefixes_of_path :
    path_prefixes (codes "packages/ui/src/button.tsx")
    ≡ codes "packages/"
      ∷ codes "packages/ui/"
      ∷ codes "packages/ui/src/"
      ∷ codes "packages/ui/src/button.tsx"
      ∷ []
unfolding path_prefixes
prefixes_of_path = refl

elem-path_prefixes_example : elem (codes "a/") (path_prefixes (codes "a/b")) ≡ (
    text_eq (codes "a/") (codes "a/b")
    || (ends_in_slash (codes "a/") && has_prefix (codes "a/b") (codes "a/")))
elem-path_prefixes_example = elem-path_prefixes (codes "a/") (codes "a/b") (λ e. cc)

abbrev skill_at : Text → List Text → Skill
skill_at path scopes = record {
  id = 0;
  path = path;
  content = codes "text";
  name = codes "n";
  description = codes "d";
  package_name = [];
  package_version = [];
  visibility = codes "public";
  source_type = codes "repo";
  topics = codes "auth" ∷ [];
  tags = [];
  scopes = scopes;
}

abbrev first : Skill
first = skill_at (codes "a.md") (codes "a/**" ∷ [])

abbrev second : Skill
second = skill_at (codes "b.md") (codes "**" ∷ [])

empty-IsWellFormed : IsWellFormed empty
empty-IsWellFormed = record { unique = tt; below = tt }

abbrev one : Tables
one = (get_skill_by_path-insert empty first).0

one-inserted : insert_skill empty first ≡ some (stored_id empty first, one)
one-inserted = (get_skill_by_path-insert empty first).1

one-IsWellFormed : IsWellFormed one
one-IsWellFormed =
    insert_skill-IsWellFormed empty first (stored_id empty first) one empty-IsWellFormed
      one-inserted

abbrev writes : List Write
writes =
    insert first
    ∷ insert second
    ∷ delete (codes "a.md")
    ∷ insert_test 2
        (record { name = codes "t"; prompt = codes "x"; extra_skills = []; criteria = [] })
    ∷ insert first
    ∷ []

run-Represents_example :
    forget_id (get_skill_by_path (run writes empty) (codes "a.md"))
    ≡ run_map writes (λ p. none) (codes "a.md")
run-Represents_example =
    run-Represents writes empty (λ p. none) empty-IsWellFormed
      (λ p. unfold get_skill_by_path find_row in refl) (codes "a.md")

-- A glob library that refuses every pattern.
abbrev no_globs : Text → Option (Text → Bool)
no_globs pattern = none

one-AreClassified : AreClassified one.scopes
one-AreClassified =
    insert_skill-AreClassified empty first (stored_id empty first) one one-inserted tt

query_by_path-covers_example : any (λ s. s.id == 1) (query_by_path no_globs one (codes "a/x")) ≡ (
    any (λ r. r.id == 1) one.skills
    && any
        (λ s. covers no_globs s (normalize (codes "a/x")))
        (map scope_text (rows_of 1 one.scopes)))
query_by_path-covers_example =
    query_by_path-covers no_globs one (codes "a/x") 1 (λ e. cc) one-AreClassified

abbrev two : Tables
two = (get_skill_by_path-insert one second).0

query-passes_all_example :
    any (λ s. s.id == 1) (query two [] (codes "auth" ∷ []) [])
    ≡ (any (λ r. r.id == 1) two.skills && passes_all two [] (codes "auth" ∷ []) [] 1)
query-passes_all_example = query-passes_all two [] (codes "auth" ∷ []) [] 1 refl

abbrev auth_and_ui : List Text
auth_and_ui = codes "auth" ∷ codes "ui" ∷ []

auth_and_ui_unique : is_unique auth_and_ui ≡ true
unfolding is_unique elem text_eq
auth_and_ui_unique = refl

has_all-all_in_example :
    has_all auth_and_ui (codes "ui" ∷ codes "x" ∷ [])
    ≡ all_in auth_and_ui (codes "ui" ∷ codes "x" ∷ [])
has_all-all_in_example = has_all-all_in auth_and_ui (codes "ui" ∷ codes "x" ∷ []) auth_and_ui_unique

query_by_path-run_example :
    any
      (λ s. text_eq s.path (codes "a.md"))
      (query_by_path no_globs (run writes empty) (codes "a/x"))
    ≡ reaches no_globs (codes "a/x") (run_map writes (λ p. none) (codes "a.md"))
query_by_path-run_example = query_by_path-run no_globs writes (codes "a/x") (codes "a.md") (λ e. cc)
