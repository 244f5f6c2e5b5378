-- ===== src/Query/Engine.antt =====
-- Engine.Execute of internal/query/query.go, with its three kinds of response. `Score`, the sections
-- and the excerpts of a result are left out, as in skillex.Query.Types.
pub mod Kinds
pub mod Walk
use skillex.Prelude.{
  ℕ, zero, suc, ◌+◌, ◌≤◌, ◌<◌, ◌≡◌, refl, ap, ◌∙◌, Bool, true, false, ◌&&◌, ◌||◌, not, Option, none,
  some, List, [], ◌∷◌, ◌++◌, map, Text, codes, is_empty, text_eq, elem, sort_by, length, ltb, ◌==◌,
  if◌then◌else◌, arith, Bool-cases, ◌⊎◌, inl, inr, Result, ok, err, ◌>>=◌, ◌>>◌, guard, >>=-eq-ok,
  guard-eq-ok,
}
use skillex.Errors.{Error}
use skillex.Capability.Availability
use skillex.Capability.Kind
use skillex.Query.Types
use skillex.Registry.Store.{Skill}
use skillex.Registry.Lookup.{path_less, all_skills, query_by_path}
use skillex.Broker.Types.{Query, DiscoveryPage}
use skillex.Query.Types.{
  ResponseType, results, vocabulary, no_match, Params, Echo, Vocabulary, Response,
}
use skillex.Query.Cursor.{DiscoveryCursor, encode_cursor, decode_cursor}
use skillex.Query.Limits.{compact_text}
use skillex.Query.Facets.{build_vocabulary, build_narrow_with}
use skillex.Query.Page.{page_limit, page_start, page_end, page_of, clip, length-page_of}
use skillex.Query.Match.{Engine, has_filters, match_skills}

pub data QueryError : Type 0 where
  unsupported_kind unsupported_availability : Text → QueryError
  -- CapabilityDiscoverer.QueryPage
  discovery : Error → QueryError

-- The test of Execute on the kind asked for.
unfoldable pub valid_kind : Text → Bool
valid_kind kind =
    is_empty kind || elem kind (Kind.tool ∷ Kind.prompt ∷ Kind.resource_template ∷ Kind.server ∷ [])

-- validAvailability
unfoldable pub valid_availability : Text → Bool
valid_availability value = elem value (
    Availability.discovered ∷ Availability.suggested ∷ Availability.setup_required
    ∷ Availability.credential_missing ∷ Availability.login_required ∷ Availability.scope_required
    ∷ Availability.ready ∷ Availability.unsupported_auth ∷ Availability.policy_denied
    ∷ Availability.unreachable ∷ Availability.stale ∷ [])

abbrev pub no_capabilities : DiscoveryPage
no_capabilities = record {
  summaries = [];
  match_count = 0;
  facets = record { servers = []; kinds = []; availability = [] };
}

-- Whether the capabilities are asked: a discoverer, and a filter that they have.
unfoldable pub asks_capabilities : Params → Bool
asks_capabilities p =
    not (is_empty p.search)
    || (not (is_empty p.path)
        || (not (is_empty p.server)
            || (not (is_empty p.capability_kind) || not (is_empty p.availability))))

unfoldable pub capability_query : Engine → Params → Query
capability_query e p = record {
  path = p.path;
  search = p.search;
  server = p.server;
  kind = p.capability_kind;
  availability = p.availability;
  context_digest = e.capability_context;
  view = e.capability_view;
  limit = page_limit p.limit;
  offset = (decode_cursor e.codec p.cursor).capabilities;
}

pub map_err : {A : Type 0} → Result Error A → Result QueryError A
map_err (ok a) = ok a
map_err (err e) = err (discovery e)

unfoldable pub capability_page : Engine → Params → Result QueryError DiscoveryPage
unfolding map_err
capability_page e p = elim e.capabilities [
  | none ↦ ok no_capabilities
  | some query_page ↦
      if asks_capabilities p
      then map_err (query_page (capability_query e p))
      else ok no_capabilities
]

-- A total of capabilities only with a discoverer.
unfoldable pub vocabulary_of : Engine → List Skill → Vocabulary
vocabulary_of e skills = elim e.capabilities [
  | none ↦ build_vocabulary skills
  | some query_page ↦ record (build_vocabulary skills) { total_capabilities = e.capability_count }
]

abbrev pub blank_response : Response
blank_response = record {
  kind = vocabulary;
  results = [];
  capabilities = [];
  vocabulary = none;
  query = none;
  match_count = 0;
  returned_count = 0;
  capability_match_count = 0;
  capability_returned_count = 0;
  too_broad = false;
  next_cursor = [];
  narrow_with = none;
}

-- vocabularyResponse
unfoldable pub vocabulary_response : Engine → Response
vocabulary_response e = record blank_response {
  vocabulary = some (vocabulary_of e (all_skills e.tables));
}

abbrev pub echo_of : Params → Echo
echo_of p = record {
  path = p.path;
  topics = p.topics;
  tags = p.tags;
  package_name = p.package_name;
  search = p.search;
  server = p.server;
  kind = p.capability_kind;
  availability = p.availability;
}

-- The skills of the hint: those that the path reaches, or all where there are none.
unfoldable pub hint_skills : Engine → Params → List Skill
hint_skills e p =
    if is_empty p.path
    then all_skills e.tables
    else elim (query_by_path e.compile e.tables p.path) [
      | [] ↦ all_skills e.tables
      | s ∷ scoped ↦ s ∷ scoped
    ]

-- noMatchResponse
unfoldable pub no_match_response : Engine → Params → Response
no_match_response e p = record blank_response {
  kind = no_match;
  query = some (echo_of p);
  vocabulary = some (vocabulary_of e (hint_skills e p));
}

-- One result; `skill_ref` is skillRef.
unfoldable pub result_of : (Text → Text) → Skill → Types.Result
result_of encode s = record {
  ref = codes "skill:" ++ encode s.path;
  path = s.path;
  name = compact_text s.name 200;
  description = compact_text s.description 600;
  package_name = s.package_name;
  package_version = s.package_version;
  visibility = s.visibility;
  source_type = s.source_type;
  topics = s.topics;
  tags = s.tags;
  scopes = s.scopes;
  content_bytes = length s.content;
  content = [];
}

-- The order of a page: by path, or as the search ranks them.
unfoldable pub ordered : Params → List Skill → List Skill
ordered p skills = if is_empty p.search then sort_by path_less skills else skills

-- The part of Execute below the no-match test, for skills in their order.
unfoldable pub results_response : Engine → Params → DiscoveryPage → List Skill → Response
results_response e p page skills =
    let cursor = decode_cursor e.codec p.cursor in
    let limit = page_limit p.limit in
    let count = length skills in
    let end = page_end cursor.skills limit count in
    let rows = map (result_of e.codec.encode) (page_of cursor.skills limit skills) in
    let capability_end = clip cursor.capabilities page.match_count + length page.summaries in
    let broad = ltb limit count || ltb limit page.match_count in
    record blank_response {
      kind = results;
      results = rows;
      capabilities = page.summaries;
      match_count = count;
      returned_count = length rows;
      capability_match_count = page.match_count;
      capability_returned_count = length page.summaries;
      next_cursor =
          if ltb end count || ltb capability_end page.match_count
          then encode_cursor e.codec (record { skills = end; capabilities = capability_end })
          else [];
      too_broad = broad;
      narrow_with = if broad then some (build_narrow_with skills page.facets) else none;
    }

-- Where nothing is found, or what is.
unfoldable pub answer : Engine → Params → DiscoveryPage → List Skill → Response
answer e p page skills =
    if length skills == 0 && page.match_count == 0
    then no_match_response e p
    else results_response e p page (ordered p skills)

unfoldable pub discover : Engine → Params → Result QueryError Response
discover e p = do page ← capability_page e p; ok (answer e p page (match_skills e p))

-- Execute
unfoldable pub execute : Engine → Params → Result QueryError Response
execute e p = do
  guard (valid_kind p.capability_kind) (unsupported_kind p.capability_kind)
  guard (is_empty p.availability || valid_availability p.availability)
      (unsupported_availability p.availability)
  if has_filters p then discover e p else ok (vocabulary_response e)
