-- ===== src/Broker/Tests.antt =====
-- The theorems about internal/broker at inputs where they apply.
use skillex.Prelude.{
  take, if◌then◌else◌, ◌==◌, length, ℕ, ◌*◌, ◌≡◌, refl, min, true, none, some, [], ◌∷◌, Text, codes,
  length, any, ok, arith, text_eq, trim_space, trim_prefix, split_on,
}
use skillex.Capability.Availability
use skillex.Capability.Model.{
  Capability, with_computed_schema_digest, validate, compute_schema_digest, canonical_json,
}
use skillex.Capability.Reference.{
  second, reference, issue, verify, verify_parts, verify_claims, decode_part, well_formed,
}
use skillex.Capability.Samples.{plain, sample, signer, shifted, issued_at}
use skillex.Broker.Types.{
  Broker, Query, CatalogPage, DiscoveryPage, DiscoveryFacets, RequestContext, allow, Connector,
  Downstream, CallResult, record_event, event_of,
}
use skillex.Broker.Describe.{
  describe, select_capability, same_capability, same_routing, Selected, describe_sound,
  describe_complete,
}
use skillex.Broker.Discover.{
  query_page, query_page-within, summary_of, summarize, summarize_all, bounded, AreSummaries,
}
use skillex.Broker.Call.{attempt, call_selected, call_with_input}
use skillex.Broker.Call.Safety.{is_open, call_with_input-opens, call_with_input-attributed}

abbrev no_facets : DiscoveryFacets
no_facets = record { servers = []; kinds = []; availability = [] }

abbrev page_found : CatalogPage
page_found = record { capabilities = sample ∷ []; match_count = 1; facets = no_facets }

abbrev broker : Broker
broker = record {
  encoding = plain;
  codec = shifted;
  catalog = record { search = λ q. ok page_found; resolve = λ claims. ok sample };
  signer = signer;
  observed = true;
  tenant_partition = [];
  principal_kind = [];
}

abbrev request : RequestContext
request = record { context_digest = codes "x"; view = codes "v" }

abbrev now : ℕ
now = 159 * second

abbrev ref : Text
ref = reference shifted signer (codes "claims")

-- Arguments and results are texts.
abbrev echo : Connector Text Text
echo = record {
  call_tool = λ name args. ok args;
  call_tool_round = none;
  get_prompt = none;
  get_prompt_round = none;
  read_resource = none;
  read_resource_round = none;
}

abbrev downstream : Downstream Text Text
downstream = record {
  evaluate = λ c args. ok allow;
  open_connector = λ c. ok echo;
  valid_arguments = λ schema args. true;
  uri = λ args. none;
}

abbrev answer : CallResult Text
answer = record {
  server = sample.server;
  kind = sample.kind;
  name = sample.name;
  result = codes "hi";
}

described : (describe broker now ref request).1 ≡ ok sample
unfolding describe select_capability verify verify_parts verify_claims decode_part well_formed
    same_capability same_routing reference with_computed_schema_digest validate
    compute_schema_digest canonical_json text_eq trim_space trim_prefix split_on
described = refl

describe_sound_example : Selected broker now ref request sample
describe_sound_example = describe_sound broker now ref request sample described

selected : Selected broker now ref request sample
selected = describe_sound broker now ref request sample described

describe_complete_example :
    describe broker now ref request
    ≡ (record_event broker (event_of (codes "describe") sample (codes "success")), ok sample)
describe_complete_example = describe_complete broker now ref request sample selected

opens : any is_open (call_with_input broker downstream now ref (codes "hi") [] [] request).0 ≡ true
unfolding call_with_input call_selected attempt record_event describe select_capability verify
    verify_parts verify_claims decode_part well_formed same_capability same_routing reference
    with_computed_schema_digest validate compute_schema_digest canonical_json text_eq trim_space
    trim_prefix split_on
opens = refl

call_with_input-opens_example :
    (c : Capability) × Selected broker now ref request c
    × (c.availability ≡ Availability.ready)
    × (downstream.valid_arguments c.input_schema (codes "hi") ≡ true)
    × (downstream.evaluate c (codes "hi") ≡ ok allow)
call_with_input-opens_example =
    call_with_input-opens broker downstream (codes "hi") [] [] now ref request opens

answered : (call_with_input broker downstream now ref (codes "hi") [] [] request).1 ≡ ok answer
unfolding call_with_input call_selected attempt record_event describe select_capability verify
    verify_parts verify_claims decode_part well_formed same_capability same_routing reference
    with_computed_schema_digest validate compute_schema_digest canonical_json text_eq trim_space
    trim_prefix split_on
answered = refl

call_with_input-attributed_example :
    (c : Capability) × (connector : Connector Text Text) × Selected broker now ref request c
    × (downstream.open_connector c ≡ ok connector)
    × (attempt downstream connector c (codes "hi") [] [] ≡ some (ok answer.result))
    × (answer.server ≡ c.server)
    × (answer.kind ≡ c.kind)
    × (answer.name ≡ c.name)
call_with_input-attributed_example =
    call_with_input-attributed broker downstream (codes "hi") [] [] now ref request answered

abbrev query : Query
query = record {
  path = [];
  search = [];
  server = [];
  kind = [];
  availability = [];
  context_digest = codes "x";
  view = codes "v";
  limit = 5;
  offset = 0;
}

abbrev page_shown : DiscoveryPage
page_shown = record {
  summaries = summary_of (reference shifted signer (codes "claims")) sample ∷ [];
  match_count = 1;
  facets = no_facets;
}

shown : (query_page broker query (λ i. issued_at) (λ i. some (codes "n"))).1 ≡ ok page_shown
unfolding query_page summarize summarize_all bounded record_event issue with_computed_schema_digest
    validate compute_schema_digest canonical_json text_eq trim_space
shown = refl

query_page-within_example :
    (found : CatalogPage) × (broker.catalog.search query ≡ ok found)
    × (length page_shown.summaries ≡ min 5 (length found.capabilities))
    × AreSummaries broker query
        (λ i. issued_at)
        (λ i. some (codes "n"))
        0
        (take 5 found.capabilities)
        page_shown.summaries
    × (1 ≡ (if found.match_count == 0 then length found.capabilities else found.match_count))
query_page-within_example =
    query_page-within broker query (λ i. issued_at) (λ i. some (codes "n")) (omega arith) shown
