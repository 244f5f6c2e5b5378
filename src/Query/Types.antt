-- ===== src/Query/Types.antt =====
-- The data of internal/query/query.go. `Score`, the sections and the matched excerpt of a result are
-- left out, and so are the constant texts of advice.
use skillex.Prelude.{ℕ, Bool, Option, List, Text}
use skillex.Capability.Integers.{ℤ}
use skillex.Broker.Types.{Summary, Facet}

-- ResponseType
pub data ResponseType : Type 0 where
  results vocabulary no_match : ResponseType

-- Params
pub record Params : Type 0 where
  pub path : Text
  pub topics : List Text
  pub tags : List Text
  pub package_name : Text
  pub search : Text
  pub server : Text
  pub capability_kind : Text
  pub availability : Text
  pub limit : ℤ
  pub cursor : Text

-- Echo
pub record Echo : Type 0 where
  pub path : Text
  pub topics : List Text
  pub tags : List Text
  pub package_name : Text
  pub search : Text
  pub server : Text
  pub kind : Text
  pub availability : Text

-- PackageEntry
pub record PackageEntry : Type 0 where
  pub name : Text
  pub version : Text
  pub count : ℕ

-- Vocabulary; TopicEntry and TagEntry are a value and its count, as a Facet is.
pub record Vocabulary : Type 0 where
  pub topics : List Facet
  pub tags : List Facet
  pub packages : List PackageEntry
  pub total_skills : ℕ
  pub total_capabilities : ℕ

-- NarrowWith, the facets of the candidates.
pub record NarrowWith : Type 0 where
  pub topics : List Facet
  pub tags : List Facet
  pub packages : List Facet
  pub paths : List Facet
  pub servers : List Facet
  pub kinds : List Facet
  pub availability : List Facet

-- Result; `content` is there for a format that discovery never selects.
pub record Result : Type 0 where
  pub ref : Text
  pub path : Text
  pub name : Text
  pub description : Text
  pub package_name : Text
  pub package_version : Text
  pub visibility : Text
  pub source_type : Text
  pub topics : List Text
  pub tags : List Text
  pub scopes : List Text
  pub content_bytes : ℕ
  pub content : Text

-- Response; the empty `next_cursor` is the omitted one.
pub record Response : Type 0 where
  pub kind : ResponseType
  pub results : List Result
  pub capabilities : List Summary
  pub vocabulary : Option Vocabulary
  pub query : Option Echo
  pub match_count : ℕ
  pub returned_count : ℕ
  pub capability_match_count : ℕ
  pub capability_returned_count : ℕ
  pub too_broad : Bool
  pub next_cursor : Text
  pub narrow_with : Option NarrowWith
