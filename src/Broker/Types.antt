-- ===== src/Broker/Types.antt =====
-- The data of internal/broker/broker.go, and the components that a broker is given: the catalog, the
-- policy and the connectors are interfaces in the source, and parameters here.
use skillex.Prelude.{ℕ, Bool, Option, List, [], ◌∷◌, Text, if◌then◌else◌, Result}
use skillex.Errors.{Error}
use skillex.Capability.Model.{Capability, Encoding, ServerIdentity, ServerVersion}
use skillex.Capability.Reference.{Codec, ReferenceClaims, ReferenceSigner}

-- Query
pub record Query : Type 0 where
  pub path : Text
  pub search : Text
  pub server : Text
  pub kind : Text
  pub availability : Text
  pub context_digest : Text
  pub view : Text
  pub limit : ℕ
  pub offset : ℕ

-- Summary
pub record Summary : Type 0 where
  pub ref : Text
  pub server : ServerIdentity
  pub version : Text
  pub kind : Text
  pub name : Text
  pub title : Text
  pub description : Text
  pub availability : Text

pub record Facet : Type 0 where
  pub value : Text
  pub count : ℕ

pub record DiscoveryFacets : Type 0 where
  pub servers : List Facet
  pub kinds : List Facet
  pub availability : List Facet

pub record CatalogPage : Type 0 where
  pub capabilities : List Capability
  pub match_count : ℕ
  pub facets : DiscoveryFacets

pub record DiscoveryPage : Type 0 where
  pub summaries : List Summary
  pub match_count : ℕ
  pub facets : DiscoveryFacets

pub record RequestContext : Type 0 where
  pub context_digest : Text
  pub view : Text

-- Catalog
pub record Catalog : Type 0 where
  pub search : Query → Result Error CatalogPage
  pub resolve : ReferenceClaims → Result Error Capability

-- PolicyEffect; `unknown` is any other text.
pub data PolicyEffect : Type 0 where
  allow deny approval_required unknown : PolicyEffect

-- UsageEvent, without its duration.
pub record UsageEvent : Type 0 where
  pub operation : Text
  pub server : Text
  pub version : Text
  pub kind : Text
  pub capability : Text
  pub availability : Text
  pub outcome : Text
  pub tenant_partition : Text
  pub principal_kind : Text

-- What a call does outside the broker, in order.
pub data Action : Type 0 where
  -- Observer.Record
  recorded : UsageEvent → Action
  -- Policy.Evaluate
  evaluated : Action
  -- ConnectorFactory.Open, that failed or returned a connector
  open_failed opened : Action
  -- a method of the connector that reaches the downstream server
  invoked : Action
  -- Connector.Close
  closed : Action

-- The actions of a call, and its result.
abbrev pub Traced : Type 0 → Type 0
Traced A = List Action × Result Error A

-- Connector with the interfaces that a connector may have besides; `none` is a type assertion that
-- fails. `Args` is `map[string]any`, `Value` is `any`.
pub record Connector (Args Value : Type 0) : Type 0 where
  pub call_tool : Text → Args → Result Error Value
  pub call_tool_round : Option (Text → Args → Args → Text → Result Error Value)
  pub get_prompt : Option (Text → Args → Result Error Value)
  pub get_prompt_round : Option (Text → Args → Args → Text → Result Error Value)
  pub read_resource : Option (Text → Result Error Value)
  pub read_resource_round : Option (Text → Args → Text → Result Error Value)

-- Policy, ConnectorFactory and internal/jsonschema.
pub record Downstream (Args Value : Type 0) : Type 0 where
  pub evaluate : Capability → Args → Result Error PolicyEffect
  pub open_connector : Capability → Result Error (Connector Args Value)
  -- tooljsonschema.Validate of the input schema gives no error
  pub valid_arguments : Text → Args → Bool
  -- arguments["uri"].(string)
  pub uri : Args → Option Text

-- CallResult
pub record CallResult (Value : Type 0) : Type 0 where
  pub server : ServerVersion
  pub kind : Text
  pub name : Text
  pub result : Value

-- Broker
pub record Broker : Type 1 where
  pub encoding : Encoding
  pub codec : Codec
  pub catalog : Catalog
  pub signer : ReferenceSigner
  -- whether there is an observer
  pub observed : Bool
  pub tenant_partition : Text
  pub principal_kind : Text

-- Broker.record
unfoldable pub record_event : Broker → UsageEvent → List Action
record_event b event =
    if b.observed
    then recorded
        (record event { tenant_partition = b.tenant_partition; principal_kind = b.principal_kind })
      ∷ []
    else []

-- The event of an operation on a selected capability.
abbrev pub event_of : Text → Capability → Text → UsageEvent
event_of operation c outcome = record {
  operation = operation;
  server = c.server.identity.canonical_name;
  version = c.server.version;
  kind = c.kind;
  capability = c.name;
  availability = c.availability;
  outcome = outcome;
  tenant_partition = [];
  principal_kind = [];
}
