-- ===== src/Capability/Reference.antt =====
-- internal/capability/ref.go: short-lived signed references. Time is in nanoseconds since the Unix
-- epoch, and not before it. encoding/base64, encoding/json, crypto/hmac and crypto/rand are
-- parameters: the fields of `Codec`, and the nonce of `issue`.
pub mod Laws
pub mod Issued
use skillex.Prelude.{
  ℕ, ◌+◌, ◌*◌, ◌/◌, ◌^◌, ◌≡◌, Bool, true, false, ◌||◌, ◌&&◌, not, Option, none, some, List, [], ◌∷◌,
  ◌++◌, Text, codes, is_empty, text_eq, has_prefix, trim_prefix, split_on, length, ltb, ◌<◌, ◌==◌,
  if◌then◌else◌, Result, ok, err, ◌>>=◌, ◌>>◌, guard, elem,
}
use skillex.Errors.{Error, invalid_reference, expired_reference, other}
use skillex.Capability.Integers.{ℤ, pos, negsuc, is_nonpositive, le_int}
use skillex.Capability.Model.{Capability, Encoding, or_fail, with_computed_schema_digest}

abbrev pub reference_prefix : Text
reference_prefix = codes "mcp-tool:v1:"

abbrev pub dot : ℕ
dot = 0x2e

pub record ReferenceClaims : Type 0 where
  pub server : Text
  pub version : Text
  pub capability : Text
  pub kind : Text
  pub schema_digest : Text
  pub routing_scope : Text
  pub auth_profile : Text
  pub view : Text
  pub context_digest : Text
  pub issued_at : ℤ
  pub expires_at : ℤ
  pub nonce : Text

pub record Codec : Type 0 where
  -- base64.RawURLEncoding
  pub encode : Text → Text
  pub decode : Text → Option Text
  -- json.Marshal and json.Unmarshal of ReferenceClaims
  pub marshal : ReferenceClaims → Option Text
  pub unmarshal : Text → Option ReferenceClaims
  -- HMAC-SHA256 of a payload under a key
  pub hmac : Text → Text → Text

pub record ReferenceSigner : Type 0 where
  pub key : Text
  pub ttl : ℕ

-- NewReferenceSigner; the clock is an argument of the operations.
unfoldable pub new_reference_signer : Text → ℤ → Result Error ReferenceSigner
new_reference_signer key ttl = if ltb (length key) 32 then err other else elim ttl [
  | pos n ↦ if n == 0 then err other else ok (record { key = key; ttl = n })
  | negsuc n ↦ err other
]

abbrev pub second : ℕ
second = 10 ^ 9

-- time.Time.Unix
abbrev pub unix : ℕ → ℤ
unix now = pos (now / second)

-- clock().Before(time.Unix(i, 0))
abbrev pub is_before : ℕ → ℤ → Bool
is_before now (pos n) = ltb now (n * second)
is_before now (negsuc n) = false

abbrev pub claims_of : Capability → Text → Text → ℕ → ℕ → Text → ReferenceClaims
claims_of c view context now ttl nonce = record {
  server = c.server.identity.canonical_name;
  version = c.server.version;
  capability = c.name;
  kind = c.kind;
  schema_digest = c.schema_digest;
  routing_scope = c.routing_scope;
  auth_profile = c.auth_profile;
  view = view;
  context_digest = context;
  issued_at = unix now;
  expires_at = unix (now + ttl);
  nonce = nonce;
}

-- The required claims are there and the validity is not empty.
unfoldable pub well_formed : ReferenceClaims → Bool
well_formed c = not (
    is_empty c.server
    || (is_empty c.version
        || (is_empty c.capability
            || (is_empty c.kind
                || (is_empty c.schema_digest
                    || (is_empty c.view
                        || (is_empty c.context_digest
                            || (is_nonpositive c.issued_at
                                || (le_int c.expires_at c.issued_at || is_empty c.nonce)))))))))

module _ (codec : Codec) where
  -- sign
  abbrev pub sign : ReferenceSigner → Text → Text
  sign s payload = codec.hmac s.key payload

  -- The text of a reference with this payload.
  unfoldable pub reference : ReferenceSigner → Text → Text
  reference s payload =
      reference_prefix ++ (codec.encode payload ++ dot ∷ codec.encode (sign s payload))

  -- Issue; `nonce` is what crypto/rand gives, `none` its error.
  unfoldable pub issue :
      Encoding → ReferenceSigner → ℕ → Option Text → Capability → Text → Text → Result Error Text
  unfolding reference
  issue enc s now nonce capability view context = do
    c ← with_computed_schema_digest enc capability
    guard (not (is_empty view || is_empty context)) other
    bytes ← or_fail nonce
    payload ← or_fail (codec.marshal (claims_of c view context now s.ttl (codec.encode bytes)))
    ok (reference s payload)

  -- A part of a reference decodes, and is the canonical encoding of what it decodes to.
  unfoldable pub decode_part : Text → Result Error Text
  decode_part part = elim (codec.decode part) [
    | none ↦ err invalid_reference
    | some bytes ↦ if text_eq (codec.encode bytes) part then ok bytes else err invalid_reference
  ]

  unfoldable pub verify_claims : ℕ → ReferenceClaims → Result Error ReferenceClaims
  verify_claims now claims = do
    guard (well_formed claims) invalid_reference
    guard (is_before now claims.expires_at) expired_reference
    ok claims

  unfoldable pub verify_parts : ReferenceSigner → ℕ → List Text → Result Error ReferenceClaims
  verify_parts s now (first ∷ second ∷ []) = do
    payload ← decode_part first
    mac ← decode_part second
    guard (text_eq mac (sign s payload)) invalid_reference
    elim (codec.unmarshal payload) [
      | none ↦ err invalid_reference
      | some claims ↦ verify_claims now claims
    ]
  verify_parts s now _ = err invalid_reference

  -- Verify
  unfoldable pub verify : ReferenceSigner → ℕ → Text → Result Error ReferenceClaims
  verify s now ref =
      if not (has_prefix ref reference_prefix)
      then err invalid_reference
      else verify_parts s now (split_on dot (trim_prefix ref reference_prefix))
