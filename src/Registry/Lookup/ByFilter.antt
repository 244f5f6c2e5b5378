-- ===== src/Registry/Lookup/ByFilter.antt =====
-- The filters by topic, tag and package of internal/registry/registry.go, one by one and together.
use skillex.Prelude.{
  ℕ, ◌<◌, ◌≡◌, refl, ◌∙◌, ap, Bool, true, ◌&&◌, ◌||◌, not, List, [], ◌∷◌, Text, is_empty, any,
  select, length, ◌==◌, arith, Bool-cases, inl, inr,
}
use skillex.Registry.Store.{Skill, Tables}
use skillex.Registry.Lookup.{
  contains, ids_of, query_by_topic, query_by_tags, query_by_package, filter_sets, intersect, query,
}
use skillex.Registry.Lookup.ByPath.{any-fetch}

unfoldable pub in_all : ℕ → List (List ℕ) → Bool
in_all id [] = true
in_all id (ids ∷ sets) = contains id ids && in_all id sets

pub contains-select :
    (id : ℕ) (ids merged : List ℕ)
    → contains id (select (λ j. contains j ids) merged) ≡ (contains id merged && contains id ids)
contains-select id ids [] = refl
contains-select id ids (j ∷ merged) = elim (Bool-cases (j == id)) [
  | inl h ↦ let e : j ≡ id = ground arith in ground (arith, e, contains-select id ids merged)
  | inr h ↦ ground (arith, contains-select id ids merged)
]

-- The loop of Query keeps the ids that are in every set.
pub contains-intersect :
    (id : ℕ) (merged : List ℕ) (sets : List (List ℕ))
    → contains id (intersect merged sets) ≡ (contains id merged && in_all id sets)
unfolding intersect in_all
contains-intersect id merged [] = ground arith
contains-intersect id merged (ids ∷ sets) =
    contains-intersect id (select (λ j. contains j ids) merged) sets
    ∙ ground (arith, contains-select id ids merged)

-- Whether a filter lets an id pass: it is not set, or has found the id.
abbrev pub passes : Bool → ℕ → List Skill → Bool
passes set id skills = not set || contains id (ids_of skills)

abbrev pub is_given : List Text → Bool
is_given values = not (length values == 0)

abbrev pub passes_all : Tables → Text → List Text → List Text → ℕ → Bool
passes_all t pkg topics tags id =
    passes (is_given topics) id (query_by_topic t topics)
    && (passes (is_given tags) id (query_by_tags t tags)
        && passes (not (is_empty pkg)) id (query_by_package t pkg))

in_all-filter_sets :
    (t : Tables) (pkg : Text) (topics tags : List Text) (id : ℕ)
    → in_all id (filter_sets t pkg topics tags) ≡ passes_all t pkg topics tags id
unfolding in_all filter_sets
in_all-filter_sets t pkg topics tags id = ground arith

cons_of_length :
    (sets : List (List ℕ))
    → 0 < length sets
    → (ids : List ℕ) × (rest : List (List ℕ)) × (sets ≡ ids ∷ rest)
cons_of_length [] h = absurd (omega arith)
cons_of_length (ids ∷ rest) h = (ids, rest, refl)

length-filter_sets :
    (t : Tables) (pkg : Text) (topics tags : List Text)
    → (is_given topics || (is_given tags || not (is_empty pkg))) ≡ true
    → 0 < length (filter_sets t pkg topics tags)
unfolding filter_sets
length-filter_sets t pkg topics tags given = ground arith

query-filter_sets :
    (t : Tables) (pkg : Text) (topics tags : List Text) (id : ℕ) (ids : List ℕ)
    (sets : List (List ℕ))
    → filter_sets t pkg topics tags ≡ ids ∷ sets
    → any (λ s. s.id == id) (query t pkg topics tags)
      ≡ (any (λ r. r.id == id) t.skills && in_all id (filter_sets t pkg topics tags))
unfolding query in_all
query-filter_sets t pkg topics tags id ids sets h =
    rw (query, h)
      (any-fetch t (intersect ids sets) id
        ∙ ap (λ b. any (λ r. r.id == id) t.skills && b) (contains-intersect id ids sets))

-- Query, given at least one filter, finds exactly the skills that every given filter finds.
pub query-passes_all :
    (t : Tables) (pkg : Text) (topics tags : List Text) (id : ℕ)
    → (is_given topics || (is_given tags || not (is_empty pkg))) ≡ true
    → any (λ s. s.id == id) (query t pkg topics tags)
      ≡ (any (λ r. r.id == id) t.skills && passes_all t pkg topics tags id)
query-passes_all t pkg topics tags id given =
    let (ids, sets, e) =
      cons_of_length (filter_sets t pkg topics tags) (length-filter_sets t pkg topics tags given) in
    query-filter_sets t pkg topics tags id ids sets e
    ∙ ap (λ b. any (λ r. r.id == id) t.skills && b) (in_all-filter_sets t pkg topics tags id)
