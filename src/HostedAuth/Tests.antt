-- ===== src/HostedAuth/Tests.antt =====
-- The theorems about internal/hostedauth at inputs where they apply.
use skillex.Prelude.{
  ◌≡◌, ◌≢◌, refl, true, Option, none, some, List, [], ◌∷◌, Text, codes, text_eq, has_prefix,
  trim_prefix, split_on, ok, if◌then◌else◌,
}
use skillex.Capability.Integers.{pos}
use skillex.Tenant.{Principal, user, is_valid}
use skillex.HostedAuth.{
  ClaimValue, string, number, array, TokenLibrary, JwtConfig, TlsState, authenticate,
  verify_token_parts, verify_token, claims_hold, principal_of, string_claim, audience_contains,
  number_claim, authenticate_peer, authenticate_chains,
}
use skillex.HostedAuth.Sound.{IsSigned, AreClaimed, authenticate_sound, authenticate_peer_sound}

-- The claims of every payload.
abbrev claims : Text → Option ClaimValue
claims name =
    if text_eq name (codes "iss")
    then some (string (codes "google"))
    else if text_eq name (codes "aud")
    then some (array (some (codes "skillex") ∷ []))
    else if text_eq name (codes "exp")
    then some (number (pos 200))
    else if text_eq name (codes "sub")
    then some (string (codes "alice"))
    else if text_eq name (codes "org")
    then some (string (codes "acme"))
    else none

-- Keys are texts, and a signature is the name of its key.
abbrev library : TokenLibrary Text
library = record {
  decode = λ s. some s;
  unmarshal_header = λ s. some (record { algorithm = codes "RS256"; key_id = s });
  unmarshal_claims = λ s. some claims;
  verify_signature = λ key message signature. text_eq key signature;
}

abbrev config : JwtConfig Text
config = record {
  issuer = codes "google";
  audience = codes "skillex";
  tenant_claim = codes "org";
  kind_claim = [];
  keys = λ id. some id;
}

abbrev alice : Principal
alice = record { tenant_id = codes "acme"; subject = codes "alice"; kind = user }

abbrev request : Text
request = codes "Bearer k.p.k"

accepted : authenticate library config (pos 100) request ≡ ok alice
unfolding authenticate verify_token_parts verify_token claims_hold principal_of is_valid text_eq
    has_prefix trim_prefix split_on string_claim audience_contains number_claim
accepted = refl

authenticate_sound_example :
    (header payload signature : Text) × (has_prefix request (codes "Bearer ") ≡ true)
    × (split_on 0x2e (trim_prefix request (codes "Bearer ")) ≡ header ∷ payload ∷ signature ∷ [])
    × IsSigned library config header payload signature
    × AreClaimed library config (pos 100) payload alice
authenticate_sound_example = authenticate_sound library config (pos 100) request accepted

abbrev fingerprint : Text → Text
fingerprint certificate = certificate

abbrev principals : Text → Option Principal
principals print = some alice

abbrev tls : Option TlsState
tls =
    some
      (record { verified_chains = (codes "leaf" ∷ []) ∷ []; peer_certificates = codes "leaf" ∷ [] })

peer_accepted : authenticate_peer fingerprint principals tls ≡ ok alice
unfolding authenticate_peer authenticate_chains is_valid text_eq
peer_accepted = refl

authenticate_peer_sound_example :
    (state : TlsState) × (tls ≡ some state)
    × (state.verified_chains ≢ [])
    × (certificate : Text) × (rest : List Text) × (state.peer_certificates ≡ certificate ∷ rest)
    × (principals (fingerprint certificate) ≡ some alice)
    × (is_valid alice ≡ true)
authenticate_peer_sound_example = authenticate_peer_sound fingerprint principals tls peer_accepted
