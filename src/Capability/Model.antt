-- ===== src/Capability/Model.antt =====
-- internal/capability/model.go: capabilities, their validation and their schema digest.
-- encoding/json and crypto/sha256 are the fields of `Encoding`.
pub mod Laws
use skillex.Prelude.{
  ℕ, ◌≡◌, Bool, true, false, ◌||◌, not, Option, none, some, List, [], ◌∷◌, ◌++◌, Text, codes,
  is_empty, text_eq, trim_space, if◌then◌else◌, Result, ok, err, ◌>>=◌, ◌>>◌, guard,
}
use skillex.Errors.{Error, other}

pub record ServerIdentity : Type 0 where
  pub canonical_name : Text
  pub publisher : Text

pub record ServerVersion : Type 0 where
  pub identity : ServerIdentity
  pub version : Text
  pub package_digest : Text
  pub status : Text

-- Capability, without its two timestamps.
pub record Capability : Type 0 where
  pub server : ServerVersion
  pub kind : Text
  pub name : Text
  pub title : Text
  pub description : Text
  pub input_schema : Text
  pub output_schema : Text
  pub schema_digest : Text
  pub availability : Text
  pub routing_scope : Text
  pub auth_profile : Text

-- What the package uses of encoding/json and crypto/sha256.
pub record Encoding : Type 1 where
  pub Json : Type 0
  -- Decoder.Decode with UseNumber: the first value of a text, and what follows it
  pub decode : Text → Option (Json × Text)
  -- whether a further Decode gives io.EOF
  pub at_eof : Text → Bool
  pub marshal : Json → Option Text
  -- json.Marshal of the payload with the fields kind, name, input and output
  pub marshal_payload : Text → Text → Text → Text → Option Text
  -- hex.EncodeToString of sha256.Sum256
  pub sha256_hex : Text → Text

abbrev pub or_fail {ℓ} : {A : Type ℓ} → Option A → Result Error A
or_fail none = err other
or_fail (some a) = ok a

module _ (enc : Encoding) where
  -- canonicalJSON
  unfoldable pub canonical_json : Text → Result Error Text
  canonical_json raw =
      if is_empty (trim_space raw)
      then ok (codes "null")
      else (or_fail (enc.decode raw) >>= λ value.
          if enc.at_eof value.1 then or_fail (enc.marshal value.0) else err other)

  -- ComputeSchemaDigest
  unfoldable pub compute_schema_digest : Text → Text → Text → Text → Result Error Text
  compute_schema_digest kind name input output = do
    canonical_input ← canonical_json input
    canonical_output ← canonical_json output
    payload ← or_fail (enc.marshal_payload kind name canonical_input canonical_output)
    ok (codes "sha256:" ++ enc.sha256_hex payload)

  -- Capability.Validate
  unfoldable pub validate : Capability → Result Error (Unit {0})
  validate c = do
    guard (not (is_empty c.server.identity.canonical_name)) other
    guard (not (is_empty c.server.version)) other
    guard (not (is_empty c.kind)) other
    guard (not (is_empty c.name)) other
    digest ← compute_schema_digest c.kind c.name c.input_schema c.output_schema
    guard (is_empty c.schema_digest || text_eq c.schema_digest digest) other

  -- Capability.WithComputedSchemaDigest
  unfoldable pub with_computed_schema_digest : Capability → Result Error Capability
  with_computed_schema_digest c = do
    digest ← compute_schema_digest c.kind c.name c.input_schema c.output_schema
    let c' : Capability = record c { schema_digest = digest }
    validate c'
    ok c'
