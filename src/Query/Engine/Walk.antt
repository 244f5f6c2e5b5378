-- ===== src/Query/Engine/Walk.antt =====
-- A client of Execute in internal/query/query.go that follows the cursors of the responses.
use skillex.Prelude.{
  ℕ, zero, suc, ◌+◌, ◌<◌, ◌≡◌, refl, sym, ◌∙◌, ap, true, false, ◌&&◌, ◌||◌, none, List, [], ◌∷◌,
  ◌++◌, map, Text, is_empty, length, ltb, ◌==◌, if◌then◌else◌, arith, Bool-cases, inl, inr, ok, err,
}
use skillex.Registry.Store.{Skill}
use skillex.Query.Types
use skillex.Query.Types.{Params, Response}
use skillex.Query.Cursor.{DiscoveryCursor, encode_cursor, decode_cursor, start}
use skillex.Query.Page.{page_limit, page_end, page_of, clip, walk, walk_all}
use skillex.Query.Match.{
  Engine, has_filters, match_skills, searched_skills, has_classic_filters, classic_skills,
}
use skillex.Query.Engine.{
  valid_kind, valid_availability, execute, discover, answer, capability_page, no_capabilities,
  results_response, result_of, ordered,
}
use skillex.Query.Engine.Kinds.{length-ordered}

abbrev pub at_cursor : Params → Text → Params
at_cursor p cursor = record p { cursor = cursor }

-- The results of a response, and of those that its cursor leads to.
unfoldable pub follow : ℕ → Engine → Params → List Types.Result
follow zero e p = []
follow (suc fuel) e p = elim (execute e p) [
  | err failure ↦ []
  | ok r ↦
      let rest = follow fuel e (at_cursor p r.next_cursor) in
      if is_empty r.next_cursor then r.results else r.results ++ rest
]

-- A query that is accepted and has a filter.
abbrev pub IsAccepted : Params → Type 0
IsAccepted p =
    (valid_kind p.capability_kind ≡ true)
    × ((is_empty p.availability || valid_availability p.availability) ≡ true)
    × (has_filters p ≡ true)

capability_page_offline :
    (e : Engine) (p : Params) → e.capabilities ≡ none → capability_page e p ≡ ok no_capabilities
unfolding capability_page
capability_page_offline e p offline = ground arith

answer_found :
    (e : Engine) (p : Params) (skills : List Skill)
    → 0 < length skills
    → answer e p no_capabilities skills ≡ results_response e p no_capabilities (ordered p skills)
unfolding answer
answer_found e p skills found =
    let tested : (length skills == 0 && 0 == 0) ≡ false = ground arith in rw tested refl

execute_accepted :
    (e : Engine) (p : Params)
    → e.capabilities ≡ none
    → IsAccepted p
    → 0 < length (match_skills e p)
    → execute e p ≡ ok (results_response e p no_capabilities (ordered p (match_skills e p)))
unfolding execute discover
execute_accepted e p offline (kind, status, filtered) found =
    rw (kind, status, filtered, capability_page_offline e p offline)
      (ap ok (answer_found e p (match_skills e p) found))

map-append : {A B : Type 0} (f : A → B) (xs ys : List A) → map f (xs ++ ys) ≡ map f xs ++ map f ys
map-append f [] ys = refl
map-append f (x ∷ xs) ys = ap (λ t. f x ∷ t) (map-append f xs ys)

-- Where the next page begins, without capabilities.
abbrev next_of : Engine → Params → List Skill → DiscoveryCursor
next_of e p skills =
    let cursor = decode_cursor e.codec p.cursor in
    record {
      skills = page_end cursor.skills (page_limit p.limit) (length skills);
      capabilities = clip cursor.capabilities 0 + 0;
    }

next_cursor_more :
    (e : Engine) (p : Params) (skills : List Skill)
    → ltb (next_of e p skills).skills (length skills) ≡ true
    → (results_response e p no_capabilities skills).next_cursor
      ≡ encode_cursor e.codec (next_of e p skills)
unfolding results_response
next_cursor_more e p skills more = rw more refl

next_cursor_last :
    (e : Engine) (p : Params) (skills : List Skill)
    → ltb (next_of e p skills).skills (length skills) ≡ false
    → (results_response e p no_capabilities skills).next_cursor ≡ []
unfolding results_response
next_cursor_last e p skills last =
    let none_left : ltb (clip (decode_cursor e.codec p.cursor).capabilities 0 + 0) 0 ≡ false =
      ground arith in
    rw (last, none_left) refl

results_of_page :
    (e : Engine) (p : Params) (skills : List Skill)
    → (results_response e p no_capabilities skills).results
      ≡ map
          (result_of e.codec.encode)
          (page_of (decode_cursor e.codec p.cursor).skills (page_limit p.limit) skills)
unfolding results_response
results_of_page e p skills = refl

follow-step :
    (fuel : ℕ) (e : Engine) (p : Params) (r : Response)
    → execute e p ≡ ok r
    → follow (suc fuel) e p ≡ (
        if is_empty r.next_cursor
        then r.results
        else r.results ++ follow fuel e (at_cursor p r.next_cursor))
unfolding follow
follow-step fuel e p r h = rw (follow, h) refl

-- What is found does not hang on the cursor.
match_skills-at_cursor :
    (e : Engine) (p : Params) (cursor : Text)
    → (match_skills e (at_cursor p cursor) ≡ match_skills e p)
      × (ordered (at_cursor p cursor) (match_skills e (at_cursor p cursor))
          ≡ ordered p (match_skills e p))
unfolding match_skills searched_skills has_classic_filters classic_skills ordered
match_skills-at_cursor e p cursor = (refl, refl)

at_cursor-IsAccepted : (p : Params) (cursor : Text) → IsAccepted p → IsAccepted (at_cursor p cursor)
unfolding has_filters
at_cursor-IsAccepted p cursor accepted = accepted

module _ (e : Engine) (offline : e.capabilities ≡ none)
    (round_trip : (c : DiscoveryCursor) → decode_cursor e.codec (encode_cursor e.codec c) ≡ c)
    (encoded : (c : DiscoveryCursor) → is_empty (encode_cursor e.codec c) ≡ false) where
  follow-walk :
      (fuel : ℕ) (p : Params)
      → IsAccepted p
      → 0 < length (match_skills e p)
      → follow fuel e p
        ≡ map (result_of e.codec.encode) (
            walk fuel
              (decode_cursor e.codec p.cursor).skills
              (page_limit p.limit)
              (ordered p (match_skills e p)))
  unfolding follow walk
  follow-walk zero p accepted found = refl
  follow-walk (suc fuel) p accepted found =
      let skills = ordered p (match_skills e p) in
      let next = next_of e p skills in
      let r = results_response e p no_capabilities skills in
      let step = follow-step fuel e p r (execute_accepted e p offline accepted found) in
      elim (Bool-cases (ltb next.skills (length skills))) [
        | inl more ↦
            let onto = encode_cursor e.codec next in
            let (found_on, ordered_on) = match_skills-at_cursor e p onto in
            let onward =
              follow-walk fuel (at_cursor p onto) (at_cursor-IsAccepted p onto accepted)
                (omega (arith, found, ap length found_on)) in
            let rows =
              page_of (decode_cursor e.codec p.cursor).skills (page_limit p.limit) skills in
            let moved : follow fuel e (at_cursor p onto)
                ≡ map (result_of e.codec.encode)
                    (walk fuel next.skills (page_limit p.limit) skills) =
              onward
              ∙ ap
                  (λ xs.
                    map (result_of e.codec.encode)
                      (walk fuel (decode_cursor e.codec onto).skills (page_limit p.limit) xs))
                  ordered_on
              ∙ ap
                  (λ (c : DiscoveryCursor).
                    map (result_of e.codec.encode) (walk fuel c.skills (page_limit p.limit) skills))
                  (round_trip next) in
            step
            ∙ rw
                (
                  next_cursor_more e p skills more,
                  encoded next,
                  results_of_page e p skills,
                  more,
                  moved,
                )
                (sym (
                  map-append (result_of e.codec.encode) rows
                    (walk fuel next.skills (page_limit p.limit) skills)))
        | inr last ↦ step ∙ rw (next_cursor_last e p skills last, last) (results_of_page e p skills)
      ]

  -- Without capabilities, and where cursors are read back as they were given out, a client that asks
  -- an accepted query without a cursor and follows the cursors of the responses gets the result of
  -- every skill found exactly once and in order, in at most one response for each and one more.
  pub follow_all :
      (p : Params)
      → IsAccepted p
      → decode_cursor e.codec p.cursor ≡ start
      → 0 < length (match_skills e p)
      → follow (suc (length (match_skills e p))) e p
        ≡ map (result_of e.codec.encode) (ordered p (match_skills e p))
  follow_all p accepted at_start found =
      let skills = ordered p (match_skills e p) in
      let size = length-ordered p (match_skills e p) in
      follow-walk (suc (length (match_skills e p))) p accepted found
      ∙ ap
          (λ (c : DiscoveryCursor).
            map (result_of e.codec.encode)
              (walk (suc (length (match_skills e p))) c.skills (page_limit p.limit) skills))
          at_start
      ∙ ap (λ n. map (result_of e.codec.encode) (walk (suc n) 0 (page_limit p.limit) skills))
          (sym size)
      ∙ ap (map (result_of e.codec.encode)) (walk_all p.limit skills)
