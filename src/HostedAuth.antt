-- ===== src/HostedAuth.antt =====
-- internal/hostedauth/auth.go: how a hosted request becomes a principal. encoding/json, base64, the
-- RSA keys and their signatures, SHA-256 with crypto/x509 are the fields of `TokenLibrary`.
pub mod Sound
mod Tests
use skillex.Prelude.{
  ℕ, Bool, true, false, ◌||◌, ◌&&◌, not, Option, none, some, List, [], ◌∷◌, ◌++◌, Text, codes,
  is_empty, text_eq, has_prefix, trim_prefix, split_on, any, Result, ok, err, ◌>>=◌, ◌>>◌, guard,
  if◌then◌else◌,
}
use skillex.Errors.{Error, unauthenticated}
use skillex.Capability.Integers.{ℤ, pos, negsuc, le_int}
use skillex.Tenant.{Principal, user, workload, is_valid}

-- A JSON value, as far as a claim is looked at: `array` has `none` for an item that is no string.
pub data ClaimValue : Type 0 where
  string : Text → ClaimValue
  -- the int64 of a float64
  number : ℤ → ClaimValue
  array : List (Option Text) → ClaimValue
  other_value : ClaimValue

pub record JwtHeader : Type 0 where
  pub algorithm : Text
  pub key_id : Text

pub record TokenLibrary (Key : Type 0) : Type 0 where
  -- base64.RawURLEncoding.DecodeString
  pub decode : Text → Option Text
  -- json.Unmarshal of a header and of a map of claims
  pub unmarshal_header : Text → Option JwtHeader
  pub unmarshal_claims : Text → Option (Text → Option ClaimValue)
  -- rsa.VerifyPKCS1v15 of the SHA-256 of a text gives no error
  pub verify_signature : Key → Text → Text → Bool

-- JWTConfig; the clock is an argument of the operations.
pub record JwtConfig (Key : Type 0) : Type 0 where
  pub issuer : Text
  pub audience : Text
  pub tenant_claim : Text
  pub kind_claim : Text
  pub keys : Text → Option Key

-- audienceContains
unfoldable pub audience_contains : Option ClaimValue → Text → Bool
audience_contains none expected = false
audience_contains (some (string s)) expected = text_eq s expected
audience_contains (some (number n)) expected = false
audience_contains (some (array items)) expected =
    any (λ item. elim item [ none ↦ false | some s ↦ text_eq s expected ]) items
audience_contains (some other_value) expected = false

-- numberClaim
unfoldable pub number_claim : Option ClaimValue → ℤ
number_claim (some (number n)) = n
number_claim _ = pos 0

-- value, _ := claims[name].(string)
unfoldable pub string_claim : Option ClaimValue → Text
string_claim (some (string s)) = s
string_claim _ = []

-- The error of a value that is not there.
abbrev pub need : {A : Type 0} → Option A → Result Error A
need none = err unauthenticated
need (some a) = ok a

module _ {Key : Type 0} (library : TokenLibrary Key) (config : JwtConfig Key) where
  -- decodeJWTPart
  abbrev pub decode_part : {A : Type 0} → (Text → Option A) → Text → Result Error A
  decode_part unmarshal part = need (library.decode part) >>= λ bytes. need (unmarshal bytes)

  -- The condition on the claims, which all must hold.
  unfoldable pub claims_hold : ℤ → (Text → Option ClaimValue) → Bool
  claims_hold now claims = not (
      not (text_eq (string_claim (claims (codes "iss"))) config.issuer)
      || (is_empty (string_claim (claims (codes "sub")))
          || (is_empty (string_claim (claims config.tenant_claim))
              || (not (audience_contains (claims (codes "aud")) config.audience)
                  || (le_int (number_claim (claims (codes "exp"))) now
                      || not (le_int (number_claim (claims (codes "nbf"))) now))))))

  unfoldable pub principal_of : (Text → Option ClaimValue) → Principal
  principal_of claims = record {
    tenant_id = string_claim (claims config.tenant_claim);
    subject = string_claim (claims (codes "sub"));
    kind =
        if not (is_empty config.kind_claim)
          && text_eq (string_claim (claims config.kind_claim)) workload
        then workload
        else user;
  }

  unfoldable pub verify_token : ℤ → Text → Text → Text → Result Error Principal
  verify_token now header payload signature = do
    jwt ← decode_part library.unmarshal_header header
    guard (text_eq jwt.algorithm (codes "RS256")) unauthenticated
    key ← need (config.keys jwt.key_id)
    sig ← need (library.decode signature)
    guard (library.verify_signature key (header ++ codes "." ++ payload) sig) unauthenticated
    claims ← decode_part library.unmarshal_claims payload
    guard (claims_hold now claims) unauthenticated
    guard (is_valid (principal_of claims)) unauthenticated
    ok (principal_of claims)

  unfoldable pub verify_token_parts : ℤ → List Text → Result Error Principal
  verify_token_parts now (header ∷ payload ∷ signature ∷ []) =
      verify_token now header payload signature
  verify_token_parts now _ = err unauthenticated

  -- JWTAuthenticator.Authenticate, for the header Authorization
  unfoldable pub authenticate : ℤ → Text → Result Error Principal
  authenticate now authorization =
      if not (has_prefix authorization (codes "Bearer "))
      then err unauthenticated
      else verify_token_parts now (split_on 0x2e (trim_prefix authorization (codes "Bearer ")))

-- What MTLSAuthenticator.Authenticate reads of request.TLS.
pub record TlsState : Type 0 where
  pub verified_chains : List (List Text)
  pub peer_certificates : List Text

unfoldable pub authenticate_chains :
    (Text → Text)
    → (Text → Option Principal)
    → List (List Text)
    → List Text
    → Result Error Principal
authenticate_chains fingerprint principals [] certificates = err unauthenticated
authenticate_chains fingerprint principals (chain ∷ chains) [] = err unauthenticated
authenticate_chains fingerprint principals (chain ∷ chains) (certificate ∷ certificates) = do
  p ← need (principals (fingerprint certificate))
  guard (is_valid p) unauthenticated
  ok p

-- MTLSAuthenticator.Authenticate; `fingerprint` is the SHA-256 of a certificate in hexadecimal.
unfoldable pub authenticate_peer :
    (Text → Text) → (Text → Option Principal) → Option TlsState → Result Error Principal
authenticate_peer fingerprint principals none = err unauthenticated
authenticate_peer fingerprint principals (some state) =
    authenticate_chains fingerprint principals state.verified_chains state.peer_certificates
