-- ===== src/Catalog/Tests.antt =====
-- Runs of the catalog of capabilities, and the theorems about it at inputs where they apply.
use skillex.Prelude.{
  ℕ, ◌*◌, ◌≡◌, refl, Bool, true, false, Option, none, some, [], ◌∷◌, ◌||◌, List, Text, codes,
  length, any, ok, text_eq, trim_space, trim_prefix, split_on, sort_by, insert_by, elem,
}
use skillex.Capability.Kind
use skillex.Capability.Availability
use skillex.Capability.Integers.{pos}
use skillex.Capability.Model.{
  Capability, with_computed_schema_digest, validate, compute_schema_digest, canonical_json,
}
use skillex.Capability.Reference.{
  second, reference, verify, verify_parts, verify_claims, decode_part, well_formed,
}
use skillex.Capability.Samples.{plain, sample, signer, shifted}
use skillex.Registry.Tables.{rows_of}
use skillex.Broker.Types.{Broker, RequestContext}
use skillex.Broker.Describe.{describe, select_capability, same_capability, same_routing}
use skillex.Catalog.Types.{
  Binding, CapabilityRecord, Suggestion, ViewRow, CapabilityRow, CatalogTables,
}
use skillex.Catalog.Rows.{
  find_where, join_row, join_rows, capability_bindings, hydrate, query_capabilities,
}
use skillex.Catalog.Resolve.{is_visible, public_partition, resolve_capability_view}
use skillex.Catalog.Resolve.Isolation.{IsResolved, resolve_capability_view_isolated}
use skillex.Catalog.Page.{Sql, CapabilityQuery, CapabilityPage, query_capability_page}
use skillex.Catalog.Page.Isolation.{is_hidden, page_size, query_capability_page_isolated}
use skillex.Catalog.Adapter.{resolve, resolve_record, new_registry}
use skillex.Catalog.Adapter.Isolation.{is_bound, describe_in_view}
use skillex.Catalog.Suggest.{
  applies, overlay, append_unique_binding, bind_scopes, placeholder, placeholders, apply_suggestion,
  apply_capability_suggestions,
}
use skillex.Catalog.Suggest.Safety.{AreOverlaid, apply_capability_suggestions_harmless}

abbrev no_globs : Text → Option (Text → Bool)
no_globs pattern = none

abbrev sql : Sql
sql = record {
  like = λ value pattern. false;
  is_before_now = λ expires now. false;
  matches = λ tokens document. true;
  rank = λ tokens documents id. 0;
}

abbrev row_in : ℕ → ℕ → Text → CapabilityRow
row_in id view_id title = record {
  id = id;
  version_id = 1;
  view_id = view_id;
  kind = Kind.tool;
  name = codes "t";
  title = title;
  description = [];
  input_schema = [];
  output_schema = [];
  schema_digest = codes "sha256:t";
  risk = [];
  availability = Availability.ready;
  raw_definition = [];
}

abbrev view_of : ℕ → Text → ViewRow
view_of id partition = record {
  id = id;
  version_id = 1;
  visibility = codes "private";
  auth_partition_hash = partition;
  cache_scope = [];
  expires_at = none;
}

-- One capability in three views.
abbrev tables : CatalogTables
tables = record {
  servers =
      record {
        id = 1;
        canonical_name = codes "s";
        publisher = [];
        source_type = codes "static";
        source_ref = codes "c";
      }
      ∷ [];
  versions =
      record { id = 1; server_id = 1; version = codes "1"; package_digest = []; status = [] } ∷ [];
  transports = [];
  views = view_of 1 public_partition ∷ view_of 2 (codes "w") ∷ view_of 3 (codes "v") ∷ [];
  capabilities = row_in 1 1 (codes "public") ∷ row_in 2 2 (codes "other") ∷ row_in 3 3 [] ∷ [];
  bindings = [];
  search = [];
  next_server = 2;
  next_version = 2;
  next_view = 4;
  next_capability = 4;
}

abbrev found : CapabilityRecord
found = record {
  id = 3;
  capability = sample;
  expires_at = none;
  visibility = codes "private";
  auth_partition_hash = codes "v";
  cache_scope = [];
  source_type = codes "static";
  source_ref = codes "c";
  risk = [];
  bindings = [];
  raw_definition = [];
  transports = [];
}

tables-resolve :
    resolve_capability_view tables 0 (codes "s") (codes "1") Kind.tool (codes "t") (codes "v")
    ≡ some found
unfolding resolve_capability_view query_capabilities hydrate capability_bindings join_rows join_row
    find_where sort_by insert_by rows_of text_eq
tables-resolve = refl

resolve_capability_view_isolated_example :
    IsResolved tables (codes "s") (codes "1") Kind.tool (codes "t") (codes "v") found
resolve_capability_view_isolated_example =
    resolve_capability_view_isolated tables 0 (codes "s") (codes "1") Kind.tool (codes "t")
      (codes "v") tables-resolve

abbrev query : CapabilityQuery
query = record {
  search = [];
  path = [];
  server = codes "s";
  kind = [];
  availability = [];
  view = codes "v";
  limit = pos 1;
  offset = pos 1;
  all_views = false;
}

query_capability_page_isolated_example :
    (page : CapabilityPage) × (query_capability_page sql no_globs tables 0 query ≡ some page)
    × (any (λ r. is_hidden sql no_globs tables 0 query r.auth_partition_hash) page.records ≡ false)
    × (length page.records ≡ page_size 1 1 page.match_count)
query_capability_page_isolated_example =
    query_capability_page_isolated sql no_globs tables 0 query 1 1 refl refl

abbrev broker : Broker
broker = record {
  encoding = plain;
  codec = shifted;
  catalog = new_registry sql no_globs tables (159 * second);
  signer = signer;
  observed = false;
  tenant_partition = [];
  principal_kind = [];
}

abbrev request : RequestContext
request = record { context_digest = codes "x"; view = codes "v" }

abbrev ref : Text
ref = reference shifted signer (codes "claims")

sample-described : (describe broker (159 * second) ref request).1 ≡ ok sample
unfolding describe select_capability verify verify_parts verify_claims decode_part well_formed
    same_capability same_routing reference with_computed_schema_digest validate
    compute_schema_digest canonical_json text_eq trim_space trim_prefix split_on new_registry
    resolve resolve_record resolve_capability_view query_capabilities hydrate capability_bindings
    join_rows join_row find_where sort_by insert_by rows_of
sample-described = refl

describe_in_view_example :
    (r : CapabilityRecord) × (resolve_capability_view tables
        (159 * second)
        (codes "s")
        (codes "1")
        Kind.tool
        (codes "t")
        (codes "v")
      ≡ some r)
    × (is_visible (codes "v") r.auth_partition_hash ≡ true)
    × ((any (is_bound sample) r.bindings || true) ≡ true)
describe_in_view_example =
    describe_in_view broker sql no_globs tables (159 * second) ref request sample sample-described

abbrev suggestion : Suggestion
suggestion = record {
  server_ref = codes "s";
  version = codes "1";
  relationship = codes "preferred";
  capabilities = codes "t" ∷ codes "u" ∷ [];
  scopes = codes "web/**" ∷ [];
  source_type = codes "pack";
  source_ref = codes "p";
}

abbrev preferred : Binding
preferred = record { scope = codes "web/**"; relationship = codes "preferred"; auth_profile = [] }

abbrev marshal : Capability → Option Text
marshal c = some c.name

abbrev suggested : List CapabilityRecord
suggested =
    record found {
      capability = record sample { availability = Availability.suggested };
      bindings = preferred ∷ [];
    }
    ∷ record found {
      id = 0;
      capability = record sample {
        name = codes "u";
        description = codes "Suggested by p; full metadata is not yet indexed.";
        schema_digest = codes "sha256:u";
        availability = Availability.suggested;
      };
      visibility = public_partition;
      auth_partition_hash = public_partition;
      cache_scope = public_partition;
      source_type = codes "pack";
      source_ref = codes "p";
      bindings = preferred ∷ [];
      raw_definition = codes "u";
    }
    ∷ []

found-suggested :
    apply_capability_suggestions plain marshal (found ∷ []) (suggestion ∷ []) ≡ ok suggested
unfolding apply_capability_suggestions apply_suggestion overlay applies append_unique_binding
    bind_scopes placeholders placeholder with_computed_schema_digest validate compute_schema_digest
    canonical_json text_eq trim_space elem
found-suggested = refl

apply_capability_suggestions_harmless_example : AreOverlaid (found ∷ []) suggested
apply_capability_suggestions_harmless_example =
    apply_capability_suggestions_harmless plain marshal (found ∷ []) (suggestion ∷ []) suggested
      found-suggested

abbrev bound_record : CapabilityRecord
bound_record = record found {
  bindings = record preferred { scope = codes "web" } ∷ [];
  raw_definition = codes "x";
}

abbrev empty_tables : CatalogTables
empty_tables = record {
  servers = [];
  versions = [];
  transports = [];
  views = [];
  capabilities = [];
  bindings = [];
  search = [];
  next_server = 1;
  next_version = 1;
  next_view = 1;
  next_capability = 1;
}
