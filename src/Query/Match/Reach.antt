-- ===== src/Query/Match/Reach.antt =====
-- How the filters of Engine.Execute in internal/query/query.go combine: a search with the filters by
-- topic, tag and package, and each of them with the path.
use skillex.Prelude.{
  ℕ, sym, length, ltb, ◌||◌, ◌==◌, if◌then◌else◌, ◌≡◌, refl, ◌∙◌, ap, Bool, true, ◌&&◌, not, List,
  [], ◌∷◌, is_empty, any, select, arith, Bool-cases, inl, inr,
}
use skillex.Registry.Store.{Skill}
use skillex.Registry.Lookup.{contains, ids_of, query, query_by_path}
use skillex.Registry.Lookup.ByFilter.{contains-select}
use skillex.Query.Types.{Params}
use skillex.Query.Match.{
  Engine, has_classic_filters, filter_if_path, scopes_match_path, filter_by_path, classic_skills,
  searched_skills, match_skills,
}

ids_of-select :
    (ids : List ℕ) (skills : List Skill)
    → ids_of (select (λ s. contains s.id ids) skills)
      ≡ select (λ id. contains id ids) (ids_of skills)
ids_of-select ids [] = refl
ids_of-select ids (s ∷ skills) = elim (Bool-cases (contains s.id ids)) [
  | inl h ↦ rw (h, ids_of-select ids skills) refl
  | inr h ↦ rw (h, ids_of-select ids skills) refl
]

any-select :
    (p : Skill → Bool) (id : ℕ) (skills : List Skill)
    → any (λ s. s.id == id) (select p skills) ≡ any (λ s. (s.id == id) && p s) skills
any-select p id [] = refl
any-select p id (s ∷ skills) = ground (arith, any-select p id skills)

found_anyway :
    (id : ℕ) (skills : List Skill)
    → any (λ s. (s.id == id) && true) skills ≡ any (λ s. s.id == id) skills
found_anyway id [] = refl
found_anyway id (s ∷ skills) = ground (arith, found_anyway id skills)

contains-ids_of :
    (id : ℕ) (skills : List Skill) → contains id (ids_of skills) ≡ any (λ s. s.id == id) skills
contains-ids_of id [] = refl
contains-ids_of id (s ∷ skills) = ground (arith, contains-ids_of id skills)

-- A skill of the list has this id and a scope that reaches the path of the query, if it has a path.
abbrev pub found_on_path : Engine → Params → ℕ → List Skill → Bool
found_on_path e p id skills =
    any (λ s. (s.id == id) && (is_empty p.path || scopes_match_path e.compile s.scopes p.path))
      skills

found-filter_if_path :
    (e : Engine) (p : Params) (id : ℕ) (skills : List Skill)
    → any (λ s. s.id == id) (filter_if_path e p skills) ≡ found_on_path e p id skills
unfolding filter_by_path
found-filter_if_path e p id skills = elim (Bool-cases (is_empty p.path)) [
  | inl h ↦ rw h (sym (found_anyway id skills))
  | inr h ↦ rw h (any-select (λ s. scopes_match_path e.compile s.scopes p.path) id skills)
]

found-classic_skills :
    (e : Engine) (p : Params) (id : ℕ)
    → any (λ s. s.id == id) (classic_skills e p)
      ≡ found_on_path e p id (query e.tables p.package_name p.topics p.tags)
unfolding classic_skills
found-classic_skills e p id =
    found-filter_if_path e p id (query e.tables p.package_name p.topics p.tags)

found-both :
    (e : Engine) (p : Params) (id : ℕ) (skills : List Skill)
    → any (λ s. s.id == id) (select (λ s. contains s.id (ids_of (classic_skills e p))) skills) ≡ (
        any (λ s. s.id == id) skills
        && found_on_path e p id (query e.tables p.package_name p.topics p.tags))
found-both e p id skills =
    sym (contains-ids_of id (select (λ s. contains s.id (ids_of (classic_skills e p))) skills))
    ∙ ap (λ ids. contains id ids) (ids_of-select (ids_of (classic_skills e p)) skills)
    ∙ contains-select id (ids_of (classic_skills e p)) (ids_of skills)
    ∙ ap (λ b. b && contains id (ids_of (classic_skills e p))) (contains-ids_of id skills)
    ∙ ap (λ b. any (λ s. s.id == id) skills && b)
        (contains-ids_of id (classic_skills e p) ∙ found-classic_skills e p id)

-- Whether a skill is found, for each kind of query. A search with other filters finds what both the
-- search and the filters find, the latter only with a scope that reaches the path, if there is one; a
-- search alone and the filters alone find what they find with such a scope; and a query by path alone
-- finds what the lookup by path finds.
pub match_skills-found :
    (e : Engine) (p : Params) (id : ℕ)
    → any (λ s. s.id == id) (match_skills e p) ≡ (
        if not (is_empty p.search)
        then if ltb 0 (length p.topics) || (ltb 0 (length p.tags) || not (is_empty p.package_name))
          then any (λ s. s.id == id) (e.search_index p.search)
            && found_on_path e p id (query e.tables p.package_name p.topics p.tags)
          else found_on_path e p id (e.search_index p.search)
        else if ltb 0 (length p.topics) || (ltb 0 (length p.tags) || not (is_empty p.package_name))
        then found_on_path e p id (query e.tables p.package_name p.topics p.tags)
        else any (λ s. s.id == id) (query_by_path e.compile e.tables p.path))
unfolding match_skills searched_skills has_classic_filters
match_skills-found e p id =
    let search = e.search_index p.search in
    elim (Bool-cases (is_empty p.search)) [
      | inl h ↦ elim (Bool-cases (has_classic_filters p)) [
        | inl k ↦ rw (h, k) (found-classic_skills e p id)
        | inr k ↦ rw (h, k) refl
      ]
      | inr h ↦ elim (Bool-cases (has_classic_filters p)) [
        | inl k ↦ rw (h, k) (found-both e p id search)
        | inr k ↦ rw (h, k) (found-filter_if_path e p id search)
      ]
    ]
