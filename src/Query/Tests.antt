-- ===== src/Query/Tests.antt =====
-- The theorems about internal/query at inputs where they apply.
use skillex.Prelude.{
  ltb, ℕ, suc, is_empty, ◌+◌, ◌≤◌, ◌<◌, ◌≡◌, refl, ◌⊎◌, false, ◌&&◌, ◌==◌, Option, none, some, List,
  [], ◌∷◌, map, arith, Text, codes, length, take, any, ok, err,
}
use skillex.Capability.Integers.{pos}
use skillex.Registry.Store.{Skill, empty}
use skillex.Registry.Lookup.{query}
use skillex.Query.Types.{Params, Response, results}
use skillex.Query.Limits.{IsBoundary, AreContinuations, budget, bound_content, bound_content_lem}
use skillex.Query.Cursor.{
  RawCursor, DiscoveryCursor, CursorCodec, start, encode_cursor, decode_cursor,
  decode_cursor-encode_cursor,
}
use skillex.Query.Facets.{
  build_vocabulary, carriers, count_under, occurrences, flat, build_vocabulary-counts,
}
use skillex.Query.Match.{Engine, has_filters, has_classic_filters, searched_skills, match_skills}
use skillex.Query.Match.Reach.{found_on_path, match_skills-found}
use skillex.Query.Engine.{
  execute, valid_kind, discover, capability_page, blank_response, result_of, ordered,
}
use skillex.Query.Engine.Walk.{follow, follow_all, IsAccepted}
use skillex.Query.Engine.Kinds.{has_content, execute-IsBounded}

-- Encodings that only need to round-trip: a cursor is its two numbers.
abbrev unmarshal_pair : Text → Option RawCursor
unmarshal_pair [] = none
unmarshal_pair (a ∷ []) = none
unmarshal_pair (a ∷ b ∷ []) = some (record { skills = pos a; capabilities = pos b })
unmarshal_pair (a ∷ b ∷ c ∷ s) = none

abbrev codec : CursorCodec
codec = record {
  encode = λ s. s;
  decode = λ s. some s;
  marshal = λ c. c.skills ∷ c.capabilities ∷ [];
  unmarshal = unmarshal_pair;
  atoi = λ s. elim s [ [] ↦ none | n ∷ rest ↦ some (pos n) ];
}

abbrev eight_two : DiscoveryCursor
eight_two = record { skills = 8; capabilities = 2 }

-- "é" and "é" again, cut at three bytes.
abbrev accents : Text
accents = 0xc3 ∷ 0xa9 ∷ 0xc3 ∷ 0xa9 ∷ []

bound_content_lem_example :
    (length (bound_content accents (pos 3)).content ≤ budget (pos 3))
    × ((bound_content accents (pos 3)).content_bytes ≡ length accents)
    × ((bound_content accents (pos 3)).truncated ≡ ltb (budget (pos 3)) (length accents))
    × ((length accents ≤ budget (pos 3)) × ((bound_content accents (pos 3)).content ≡ accents)
        ⊎ ((n : ℕ) × (k : ℕ) × (n + k ≡ budget (pos 3))
            × (budget (pos 3) < length accents)
            × IsBoundary accents n
            × AreContinuations accents n k
            × ((bound_content accents (pos 3)).content ≡ take n accents)))
bound_content_lem_example = bound_content_lem accents (pos 3)

abbrev login : Skill
login = record {
  id = 1;
  path = codes "login.md";
  content = codes "text";
  name = codes "login";
  description = [];
  package_name = [];
  package_version = [];
  visibility = codes "public";
  source_type = codes "repo";
  topics = codes "auth" ∷ [];
  tags = [];
  scopes = codes "**" ∷ [];
}

build_vocabulary-counts_example :
    (count_under (codes "auth") (build_vocabulary (login ∷ login ∷ [])).topics
      ≡ occurrences (codes "auth") (flat (λ s. s.topics) (login ∷ login ∷ [])))
    × (count_under (codes "auth") (build_vocabulary (login ∷ login ∷ [])).tags
        ≡ occurrences (codes "auth") (flat (λ s. s.tags) (login ∷ login ∷ [])))
    × (carriers (λ s. s.topics) (codes "auth") (login ∷ login ∷ [])
        ≤ count_under (codes "auth") (build_vocabulary (login ∷ login ∷ [])).topics)
    × (carriers (λ s. s.tags) (codes "auth") (login ∷ login ∷ [])
        ≤ count_under (codes "auth") (build_vocabulary (login ∷ login ∷ [])).tags)
    × ((build_vocabulary (login ∷ login ∷ [])).total_skills ≡ length (login ∷ login ∷ []))
build_vocabulary-counts_example = build_vocabulary-counts (login ∷ login ∷ []) (codes "auth")

-- A search that always finds the one skill.
abbrev engine : Engine
engine = record {
  tables = empty;
  compile = λ pattern. none;
  search_index = λ search. login ∷ [];
  capability_count = 0;
  capabilities = none;
  capability_context = [];
  capability_view = [];
  codec = codec;
}

abbrev asked : Text → List Text → Params
asked path topics = record {
  path = path;
  topics = topics;
  tags = [];
  package_name = [];
  search = codes "login";
  server = [];
  capability_kind = [];
  availability = [];
  limit = pos 0;
  cursor = [];
}

match_skills-found_example :
    any (λ s. s.id == 1) (match_skills engine (asked (codes "a/b") (codes "auth" ∷ []))) ≡ (
      any (λ s. s.id == 1) (engine.search_index (codes "login"))
      && found_on_path engine
          (asked (codes "a/b") (codes "auth" ∷ []))
          1
          (query engine.tables [] (codes "auth" ∷ []) []))
match_skills-found_example = match_skills-found engine (asked (codes "a/b") (codes "auth" ∷ [])) 1

abbrev found : Response
found = elim (execute engine (asked [] [])) [ ok r ↦ r | err e ↦ blank_response ]

executed : execute engine (asked [] []) ≡ ok found
unfolding execute valid_kind has_filters discover capability_page
executed = refl

execute-IsBounded_example :
    (length found.results ≤ 20)
    × (found.returned_count ≡ length found.results)
    × (found.returned_count ≤ found.match_count)
    × (any has_content found.results ≡ false)
execute-IsBounded_example = execute-IsBounded engine (asked [] []) executed

cursors_read_back : (c : DiscoveryCursor) → decode_cursor codec (encode_cursor codec c) ≡ c
cursors_read_back c = decode_cursor-encode_cursor codec c refl refl

cursors_not_empty : (c : DiscoveryCursor) → is_empty (encode_cursor codec c) ≡ false
unfolding encode_cursor
cursors_not_empty c = refl

asked-IsAccepted : IsAccepted (asked [] [])
unfolding valid_kind has_filters
asked-IsAccepted = (refl, refl, refl)

starts : decode_cursor codec (asked [] []).cursor ≡ start
unfolding decode_cursor
starts = refl

found_one : length (match_skills engine (asked [] [])) ≡ 1
unfolding match_skills searched_skills has_classic_filters
found_one = refl

follow_all_example :
    follow (suc (length (match_skills engine (asked [] [])))) engine (asked [] [])
    ≡ map (result_of codec.encode) (ordered (asked [] []) (match_skills engine (asked [] [])))
follow_all_example =
    follow_all engine refl cursors_read_back cursors_not_empty (asked [] []) asked-IsAccepted starts
      (omega (arith, found_one))
