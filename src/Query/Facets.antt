-- ===== src/Query/Facets.antt =====
-- The counts of internal/query/query.go: buildVocabulary and buildNarrowWith. A Go map of counts is a
-- list with one entry for each key; both functions sort it before they return it.
use skillex.Prelude.{
  ℕ, suc, ◌+◌, ◌≡◌, ◌≤◌, refl, ◌∙◌, Bool, true, elem, Bool-cases, inl, inr, not, List, [], ◌∷◌,
  ◌++◌, Text, is_empty, text_eq, text_eq_iff, text_lt, length, take, ltb, ◌==◌, select, insert_by,
  sort_by, if◌then◌else◌, arith,
}
use skillex.Registry.Store.{Skill}
use skillex.Broker.Types.{Facet, DiscoveryFacets}
use skillex.Query.Types.{PackageEntry, Vocabulary, NarrowWith}

-- counts[value]++
unfoldable pub bump : Text → List Facet → List Facet
bump value [] = record { value = value; count = 1 } ∷ []
bump value (f ∷ fs) =
    if text_eq f.value value then record f { count = suc f.count } ∷ fs else f ∷ bump value fs

-- The counts after a list of values, the first of them counted last.
unfoldable pub tally : List Text → List Facet
unfolding bump
tally [] = []
tally (v ∷ vs) = bump v (tally vs)

unfoldable pub flat : {A : Type 0} → (A → List Text) → List A → List Text
flat f [] = []
flat f (x ∷ xs) = f x ++ flat f xs

abbrev pub name_less : Facet → Facet → Bool
name_less a b = text_lt a.value b.value

-- More first, and by value where the counts are equal.
abbrev pub facet_less : Facet → Facet → Bool
facet_less a b = if a.count == b.count then text_lt a.value b.value else ltb b.count a.count

-- The closure `counts` of buildNarrowWith.
unfoldable pub top_facets : (Skill → List Text) → List Skill → List Facet
unfolding tally flat
top_facets values skills =
    take 8 (sort_by facet_less (tally (select (λ v. not (is_empty v)) (flat values skills))))

-- buildNarrowWith
unfoldable pub build_narrow_with : List Skill → DiscoveryFacets → NarrowWith
build_narrow_with skills facets = record {
  topics = top_facets (λ s. s.topics) skills;
  tags = top_facets (λ s. s.tags) skills;
  packages = top_facets (λ s. s.package_name ∷ []) skills;
  paths = top_facets (λ s. s.scopes) skills;
  servers = facets.servers;
  kinds = facets.kinds;
  availability = facets.availability;
}

-- An entry keeps the version of the first skill of its package.
unfoldable pub bump_package : Text → Text → List PackageEntry → List PackageEntry
bump_package name version [] = record { name = name; version = version; count = 1 } ∷ []
bump_package name version (e ∷ es) =
    if text_eq e.name name
    then record e { count = suc e.count } ∷ es
    else e ∷ bump_package name version es

unfoldable pub package_loop : List Skill → List PackageEntry → List PackageEntry
package_loop [] entries = entries
package_loop (s ∷ skills) entries = package_loop skills (
    if is_empty s.package_name
    then entries
    else bump_package s.package_name s.package_version entries)

abbrev pub package_less : PackageEntry → PackageEntry → Bool
package_less a b = text_lt a.name b.name

-- buildVocabulary; the total of capabilities is set by the callers.
unfoldable pub build_vocabulary : List Skill → Vocabulary
unfolding tally flat package_loop
build_vocabulary skills = record {
  topics = sort_by name_less (tally (flat (λ s. s.topics) skills));
  tags = sort_by name_less (tally (flat (λ s. s.tags) skills));
  packages = sort_by package_less (package_loop skills []);
  total_skills = length skills;
  total_capabilities = 0;
}

-- How often a value is in a list.
unfoldable pub occurrences : Text → List Text → ℕ
occurrences v [] = 0
occurrences v (x ∷ xs) = let rest = occurrences v xs in if text_eq x v then suc rest else rest

-- The sum of the counts under a value.
unfoldable pub count_under : Text → List Facet → ℕ
count_under v [] = 0
count_under v (f ∷ fs) =
    let rest = count_under v fs in if text_eq f.value v then f.count + rest else rest

count_under-bump :
    (v x : Text) (fs : List Facet)
    → count_under v (bump x fs) ≡ (if text_eq x v then suc (count_under v fs) else count_under v fs)
unfolding count_under bump
count_under-bump v x [] = ground arith
count_under-bump v x (f ∷ fs) =
    ground (
      arith,
      text_eq_iff f.value x,
      text_eq_iff f.value v,
      text_eq_iff x v,
      count_under-bump v x fs,
    )

count_under-tally : (v : Text) (xs : List Text) → count_under v (tally xs) ≡ occurrences v xs
unfolding tally occurrences
count_under-tally v [] = unfold count_under in refl
count_under-tally v (x ∷ xs) =
    count_under-bump v x (tally xs) ∙ ground (arith, count_under-tally v xs)

count_under-insert_by :
    (less : Facet → Facet → Bool) (v : Text) (f : Facet) (fs : List Facet)
    → count_under v (insert_by less f fs) ≡ count_under v (f ∷ fs)
unfolding count_under insert_by
count_under-insert_by less v f [] = refl
count_under-insert_by less v f (g ∷ fs) = ground (arith, count_under-insert_by less v f fs)

count_under-cons :
    (v : Text) (f : Facet) (fs gs : List Facet)
    → count_under v fs ≡ count_under v gs
    → count_under v (f ∷ fs) ≡ count_under v (f ∷ gs)
unfolding count_under
count_under-cons v f fs gs h = ground arith

count_under-sort_by :
    (less : Facet → Facet → Bool) (v : Text) (fs : List Facet)
    → count_under v (sort_by less fs) ≡ count_under v fs
unfolding sort_by
count_under-sort_by less v [] = refl
count_under-sort_by less v (f ∷ fs) =
    count_under-insert_by less v f (sort_by less fs)
    ∙ count_under-cons v f (sort_by less fs) fs (count_under-sort_by less v fs)

occurrences-append :
    (v : Text) (xs ys : List Text) → occurrences v (xs ++ ys) ≡ occurrences v xs + occurrences v ys
unfolding occurrences
occurrences-append v [] ys = omega arith
occurrences-append v (x ∷ xs) ys = ground (arith, occurrences-append v xs ys)

occurrences-elem : (v : Text) (xs : List Text) → elem v xs ≡ true → 1 ≤ occurrences v xs
unfolding occurrences elem
occurrences-elem v [] h = cc
occurrences-elem v (x ∷ xs) h =
    ground (arith, text_eq_iff v x, text_eq_iff x v, occurrences-elem v xs)

-- How many skills carry a value.
unfoldable pub carriers : (Skill → List Text) → Text → List Skill → ℕ
carriers values v [] = 0
carriers values v (s ∷ skills) =
    let rest = carriers values v skills in if elem v (values s) then suc rest else rest

carriers-le :
    (values : Skill → List Text) (v : Text) (skills : List Skill)
    → carriers values v skills ≤ occurrences v (flat values skills)
unfolding carriers flat
carriers-le values v [] = omega arith
carriers-le values v (s ∷ skills) = elim (Bool-cases (elem v (values s))) [
  | inl h ↦ ground (
    arith,
    h,
    occurrences-elem v (values s) h,
    occurrences-append v (values s) (flat values skills),
    carriers-le values v skills,
  )
  | inr h ↦
      ground (
        arith,
        h,
        occurrences-append v (values s) (flat values skills),
        carriers-le values v skills,
      )
]

-- The vocabulary counts each topic and each tag once for each time that a skill lists it, so a skill
-- that lists one twice counts twice and the count may be above the number of skills that carry it, but
-- not below; and it counts all the skills.
pub build_vocabulary-counts :
    (skills : List Skill) (v : Text)
    → (count_under v (build_vocabulary skills).topics ≡ occurrences v (flat (λ s. s.topics) skills))
      × (count_under v (build_vocabulary skills).tags ≡ occurrences v (flat (λ s. s.tags) skills))
      × (carriers (λ s. s.topics) v skills ≤ count_under v (build_vocabulary skills).topics)
      × (carriers (λ s. s.tags) v skills ≤ count_under v (build_vocabulary skills).tags)
      × ((build_vocabulary skills).total_skills ≡ length skills)
unfolding build_vocabulary
build_vocabulary-counts skills v =
    let topics =
      count_under-sort_by name_less v (tally (flat (λ s. s.topics) skills))
      ∙ count_under-tally v (flat (λ s. s.topics) skills) in
    let tags =
      count_under-sort_by name_less v (tally (flat (λ s. s.tags) skills))
      ∙ count_under-tally v (flat (λ s. s.tags) skills) in
    (
      topics,
      tags,
      omega (arith, topics, carriers-le (λ s. s.topics) v skills),
      omega (arith, tags, carriers-le (λ s. s.tags) v skills),
      refl,
    )
