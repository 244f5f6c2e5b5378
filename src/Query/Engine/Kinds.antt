-- ===== src/Query/Engine/Kinds.antt =====
-- What internal/query/query.go answers a query with: the three kinds of response, and their bounds.
use skillex.Prelude.{
  suc, ◌+◌, ◌≤◌, ◌<◌, ◌≡◌, refl, ap, ◌∙◌, Bool, true, false, ◌&&◌, ◌||◌, not, List, [], ◌∷◌, map,
  Text, is_empty, length, any, ◌==◌, if◌then◌else◌, arith, Bool-cases, ◌⊎◌, inl, inr, ok, >>=-eq-ok,
  guard-eq-ok, length-sort_by,
}
use skillex.Registry.Store.{Skill}
use skillex.Registry.Lookup.{path_less}
use skillex.Broker.Types.{DiscoveryPage}
use skillex.Query.Types
use skillex.Query.Types.{results, Params, Response}
use skillex.Query.Cursor.{decode_cursor}
use skillex.Query.Page.{page_limit, page_of, length-page_of, length-page_of_all, page_limit-bounds}
use skillex.Query.Match.{Engine, has_filters, match_skills}
use skillex.Query.Engine.{
  unsupported_kind, unsupported_availability, valid_kind, valid_availability, execute, discover,
  answer, capability_page, vocabulary_response, no_match_response, results_response, result_of,
  ordered,
}

-- What has happened where Execute gives a response.
abbrev IsDiscovered : Engine → Params → Response → Type 0
IsDiscovered e p r =
    (has_filters p ≡ true)
    × (page : DiscoveryPage) × (capability_page e p ≡ ok page)
    × (r ≡ answer e p page (match_skills e p))

discover-ok :
    (e : Engine) (p : Params) {r : Response}
    → discover e p ≡ ok r
    → (page : DiscoveryPage) × (capability_page e p ≡ ok page)
      × (r ≡ answer e p page (match_skills e p))
unfolding discover
discover-ok e p h =
    let (page, found, answered) = >>=-eq-ok (capability_page e p) _ h in (page, found, ground arith)

execute-ok :
    (e : Engine) (p : Params) {r : Response}
    → execute e p ≡ ok r
    → (valid_kind p.capability_kind ≡ true)
      × ((is_empty p.availability || valid_availability p.availability) ≡ true)
      × ((if has_filters p then discover e p else ok (vocabulary_response e)) ≡ ok r)
unfolding execute
execute-ok e p h =
    let (kind, more) =
      guard-eq-ok (valid_kind p.capability_kind) (unsupported_kind p.capability_kind) _ h in
    let (status, rest) =
      guard-eq-ok (is_empty p.availability || valid_availability p.availability)
        (unsupported_availability p.availability) _ more in
    (kind, status, rest)

execute-cases :
    (e : Engine) (p : Params) {r : Response}
    → execute e p ≡ ok r
    → ((has_filters p ≡ false) × (r ≡ vocabulary_response e)) ⊎ IsDiscovered e p r
execute-cases e p h =
    let (kind, status, rest) = execute-ok e p h in
    elim (Bool-cases (has_filters p)) [
      | inl f ↦
          let (page, found, answered) = discover-ok e p (ground arith) in
          inr (f, page, found, answered)
      | inr f ↦ inl (f, ground arith)
    ]

pub length-ordered : (p : Params) (skills : List Skill) → length (ordered p skills) ≡ length skills
unfolding ordered
length-ordered p skills = elim (Bool-cases (is_empty p.search)) [
  | inl h ↦ rw h (length-sort_by path_less skills)
  | inr h ↦ rw h refl
]

empty_of_length : {A : Type 0} (xs : List A) → length xs ≡ 0 → xs ≡ []
empty_of_length [] h = refl
empty_of_length (x ∷ xs) h = absurd (omega arith)

answer-cases :
    (e : Engine) (p : Params) (page : DiscoveryPage) (skills : List Skill)
    → ((skills ≡ []) × (page.match_count ≡ 0) × (answer e p page skills ≡ no_match_response e p))
      ⊎ ((0 < length skills + page.match_count)
          × (answer e p page skills ≡ results_response e p page (ordered p skills)))
unfolding answer
answer-cases e p page skills = elim (Bool-cases (length skills == 0 && page.match_count == 0)) [
  | inl h ↦ inl (empty_of_length skills (ground arith), ground arith, rw h refl)
  | inr h ↦ inr (ground arith, rw h refl)
]

length-map : {A B : Type 0} (f : A → B) (xs : List A) → length (map f xs) ≡ length xs
length-map f [] = refl
length-map f (x ∷ xs) = ap suc (length-map f xs)

abbrev pub has_content : Types.Result → Bool
has_content row = not (is_empty row.content)

any-result_of :
    (encode : Text → Text) (skills : List Skill)
    → any has_content (map (result_of encode) skills) ≡ false
unfolding result_of
any-result_of encode [] = refl
any-result_of encode (s ∷ skills) = any-result_of encode skills

abbrev IsBounded : Response → Type 0
IsBounded r =
    (length r.results ≤ 20)
    × (r.returned_count ≡ length r.results)
    × (r.returned_count ≤ r.match_count)
    × (any has_content r.results ≡ false)

results_response-IsBounded :
    (e : Engine) (p : Params) (page : DiscoveryPage) (skills : List Skill)
    → IsBounded (results_response e p page skills)
unfolding results_response
results_response-IsBounded e p page skills =
    let cursor = (decode_cursor e.codec p.cursor).skills in
    let (positive, small) = page_limit-bounds p.limit in
    let rows = page_of cursor (page_limit p.limit) skills in
    let size = length-map (result_of e.codec.encode) rows in
    (
      omega (arith, size, length-page_of cursor (page_limit p.limit) skills, small),
      refl,
      omega (arith, size, length-page_of_all cursor (page_limit p.limit) skills),
      any-result_of e.codec.encode rows,
    )

blank-IsBounded :
    (e : Engine) (p : Params)
    → IsBounded (vocabulary_response e) × IsBounded (no_match_response e p)
unfolding vocabulary_response no_match_response
blank-IsBounded e p =
    ((omega arith, refl, omega arith, refl), (omega arith, refl, omega arith, refl))

-- No response has more than 20 results or more than were found, and no result of a query has content.
pub execute-IsBounded :
    (e : Engine) (p : Params) {r : Response}
    → execute e p ≡ ok r
    → (length r.results ≤ 20)
      × (r.returned_count ≡ length r.results)
      × (r.returned_count ≤ r.match_count)
      × (any has_content r.results ≡ false)
execute-IsBounded e p h = elim (execute-cases e p h) [
  | inl (f, answered) ↦ rw answered (blank-IsBounded e p).0
  | inr (f, page, found, answered) ↦ elim (answer-cases e p page (match_skills e p)) [
    | inl (none_found, no_capability, a) ↦ rw (answered ∙ a) (blank-IsBounded e p).1
    | inr (some_found, a) ↦
        rw (answered ∙ a) (results_response-IsBounded e p page (ordered p (match_skills e p)))
  ]
]
