-- ===== src/HostedAuth/Sound.antt =====
-- What internal/hostedauth/auth.go has checked of a request that it gives a principal.
use skillex.Prelude.{
  ◌≡◌, ◌≢◌, refl, sym, ◌∙◌, ap, true, false, Option, none, some, List, [], ◌∷◌, ◌++◌, Text, codes,
  text_eq, text_eq_iff, has_prefix, trim_prefix, split_on, ok, guard-eq-ok, >>=-eq-ok, arith,
  Bool-cases, inl, inr,
}
use skillex.Errors.{unauthenticated}
use skillex.Capability.Integers.{ℤ, le_int}
use skillex.Tenant.{Principal, is_valid}
use skillex.HostedAuth.{
  ClaimValue, JwtHeader, TokenLibrary, JwtConfig, TlsState, audience_contains, number_claim,
  string_claim, need, decode_part, claims_hold, principal_of, verify_token, verify_token_parts,
  authenticate, authenticate_chains, authenticate_peer,
}

need-ok : {A : Type 0} (o : Option A) {a : A} → need o ≡ ok a → o ≡ some a
need-ok none h = cc
need-ok (some a) h = cc

module _ {Key : Type 0} (library : TokenLibrary Key) (config : JwtConfig Key) where
  decode_part-ok :
      {A : Type 0} (unmarshal : Text → Option A) (part : Text) {a : A}
      → decode_part library config unmarshal part ≡ ok a
      → (bytes : Text) × (library.decode part ≡ some bytes) × (unmarshal bytes ≡ some a)
  decode_part-ok unmarshal part h =
      let (bytes, e, k) = >>=-eq-ok (need (library.decode part)) _ h in
      (bytes, need-ok (library.decode part) e, need-ok (unmarshal bytes) k)

  -- A text is signed with the key of the configuration that a header names, by RS256.
  abbrev pub IsSigned : Text → Text → Text → Type 0
  IsSigned header payload signature =
      (bytes sig : Text) × (jwt : JwtHeader) × (key : Key) × (library.decode header ≡ some bytes)
      × (library.unmarshal_header bytes ≡ some jwt)
      × (jwt.algorithm ≡ codes "RS256")
      × (config.keys jwt.key_id ≡ some key)
      × (library.decode signature ≡ some sig)
      × (library.verify_signature key (header ++ codes "." ++ payload) sig ≡ true)

  -- The claims of a payload are for this service and at this time, and give the principal.
  abbrev pub AreClaimed : ℤ → Text → Principal → Type 0
  AreClaimed now payload p =
      (bytes : Text) × (claims : Text → Option ClaimValue) × (library.decode payload ≡ some bytes)
      × (library.unmarshal_claims bytes ≡ some claims)
      × (string_claim (claims (codes "iss")) ≡ config.issuer)
      × (audience_contains (claims (codes "aud")) config.audience ≡ true)
      × (le_int (number_claim (claims (codes "exp"))) now ≡ false)
      × (le_int (number_claim (claims (codes "nbf"))) now ≡ true)
      × (p.tenant_id ≡ string_claim (claims config.tenant_claim))
      × (p.subject ≡ string_claim (claims (codes "sub")))
      × (is_valid p ≡ true)

  claims_hold-parts :
      (now : ℤ) (claims : Text → Option ClaimValue)
      → claims_hold library config now claims ≡ true
      → (text_eq (string_claim (claims (codes "iss"))) config.issuer ≡ true)
        × (audience_contains (claims (codes "aud")) config.audience ≡ true)
        × (le_int (number_claim (claims (codes "exp"))) now ≡ false)
        × (le_int (number_claim (claims (codes "nbf"))) now ≡ true)
  unfolding claims_hold
  claims_hold-parts now claims h = (ground arith, ground arith, ground arith, ground arith)

  principal_of-fields :
      (claims : Text → Option ClaimValue)
      → ((principal_of library config claims).tenant_id ≡ string_claim (claims config.tenant_claim))
        × ((principal_of library config claims).subject ≡ string_claim (claims (codes "sub")))
  unfolding principal_of
  principal_of-fields claims = (refl, refl)

  verify_token_sound :
      (now : ℤ) (header payload signature : Text) {p : Principal}
      → verify_token library config now header payload signature ≡ ok p
      → IsSigned header payload signature × AreClaimed now payload p
  unfolding verify_token
  verify_token_sound now header payload signature {p = p} h =
      let (jwt, e1, k1) =
        >>=-eq-ok (decode_part library config library.unmarshal_header header) _ h in
      let (rs, k2) = guard-eq-ok (text_eq jwt.algorithm (codes "RS256")) unauthenticated _ k1 in
      let (key, e3, k3) = >>=-eq-ok (need (config.keys jwt.key_id)) _ k2 in
      let (sig, e4, k4) = >>=-eq-ok (need (library.decode signature)) _ k3 in
      let (signed, k5) =
        guard-eq-ok (library.verify_signature key (header ++ codes "." ++ payload) sig)
          unauthenticated _ k4 in
      let (claims, e6, k6) =
        >>=-eq-ok (decode_part library config library.unmarshal_claims payload) _ k5 in
      let (hold, k7) = guard-eq-ok (claims_hold library config now claims) unauthenticated _ k6 in
      let (valid, k8) =
        guard-eq-ok (is_valid (principal_of library config claims)) unauthenticated _ k7 in
      let (head, d1, u1) = decode_part-ok library.unmarshal_header header e1 in
      let (body, d2, u2) = decode_part-ok library.unmarshal_claims payload e6 in
      let (iss, aud, exp, nbf) = claims_hold-parts now claims hold in
      let (tenant, subject) = principal_of-fields claims in
      let same : principal_of library config claims ≡ p = cc in
      (
        (
          head,
          sig,
          jwt,
          key,
          d1,
          u1,
          (text_eq_iff jwt.algorithm (codes "RS256")).0 rs,
          need-ok (config.keys jwt.key_id) e3,
          need-ok (library.decode signature) e4,
          signed,
        ),
        (
          body,
          claims,
          d2,
          u2,
          (text_eq_iff _ config.issuer).0 iss,
          aud,
          exp,
          nbf,
          sym (ap (λ (q : Principal). q.tenant_id) same) ∙ tenant,
          sym (ap (λ (q : Principal). q.subject) same) ∙ subject,
          sym (ap is_valid same) ∙ valid,
        ),
      )

  verify_token_parts_sound :
      (now : ℤ) (parts : List Text) {p : Principal}
      → verify_token_parts library config now parts ≡ ok p
      → (header payload signature : Text) × (parts ≡ header ∷ payload ∷ signature ∷ [])
        × IsSigned header payload signature
        × AreClaimed now payload p
  unfolding verify_token_parts
  verify_token_parts_sound now [] h = cc
  verify_token_parts_sound now (a ∷ []) h = cc
  verify_token_parts_sound now (a ∷ b ∷ []) h = cc
  verify_token_parts_sound now (a ∷ b ∷ c ∷ d ∷ parts) h = cc
  verify_token_parts_sound now (a ∷ b ∷ c ∷ []) h =
      let (signed, claimed) = verify_token_sound now a b c h in (a, b, c, refl, signed, claimed)

  authenticate-bearer :
      (now : ℤ) (authorization : Text) {p : Principal}
      → authenticate library config now authorization ≡ ok p
      → (has_prefix authorization (codes "Bearer ") ≡ true)
        × (verify_token_parts library config now
              (split_on 0x2e (trim_prefix authorization (codes "Bearer ")))
            ≡ ok p)
  unfolding authenticate
  authenticate-bearer now authorization h =
      elim (Bool-cases (has_prefix authorization (codes "Bearer "))) [
        | inl b ↦ (b, ground arith)
        | inr b ↦ absurd (ground arith)
      ]

  -- A request is given a principal only if its bearer token has three parts, is signed by RS256 with
  -- the configured key that it names, was issued by the configured issuer for the configured audience,
  -- is neither expired nor used before its time, and names that tenant and that subject.
  pub authenticate_sound :
      (now : ℤ) (authorization : Text) {p : Principal}
      → authenticate library config now authorization ≡ ok p
      → (header payload signature : Text) × (has_prefix authorization (codes "Bearer ") ≡ true)
        × (split_on 0x2e (trim_prefix authorization (codes "Bearer "))
            ≡ header ∷ payload ∷ signature ∷ [])
        × IsSigned header payload signature
        × AreClaimed now payload p
  authenticate_sound now authorization h =
      let (bearer, k) = authenticate-bearer now authorization h in
      let (header, payload, signature, parts, signed, claimed) = verify_token_parts_sound now _ k in
      (header, payload, signature, bearer, parts, signed, claimed)

authenticate_chains_sound :
    (fingerprint : Text → Text) (principals : Text → Option Principal) (chains : List (List Text))
    (certificates : List Text) {p : Principal}
    → authenticate_chains fingerprint principals chains certificates ≡ ok p
    → (chains ≢ [])
      × (certificate : Text) × (rest : List Text) × (certificates ≡ certificate ∷ rest)
      × (principals (fingerprint certificate) ≡ some p)
      × (is_valid p ≡ true)
unfolding authenticate_chains
authenticate_chains_sound fingerprint principals [] certificates h = cc
authenticate_chains_sound fingerprint principals (chain ∷ chains) [] h = cc
authenticate_chains_sound fingerprint principals (chain ∷ chains) (c ∷ rest) {p = p} h =
    let (found, e, k) = >>=-eq-ok (need (principals (fingerprint c))) _ h in
    let (valid, l) = guard-eq-ok (is_valid found) unauthenticated _ k in
    let same : found ≡ p = cc in
    (
      (λ z. cc),
      c,
      rest,
      refl,
      need-ok (principals (fingerprint c)) e ∙ ap some same,
      sym (ap is_valid same) ∙ valid,
    )

-- A request over TLS is given a principal only if the connection has a verified chain, and the
-- principal is the valid one that is configured for the fingerprint of the peer's own certificate.
pub authenticate_peer_sound :
    (fingerprint : Text → Text) (principals : Text → Option Principal) (tls : Option TlsState)
    {p : Principal}
    → authenticate_peer fingerprint principals tls ≡ ok p
    → (state : TlsState) × (tls ≡ some state)
      × (state.verified_chains ≢ [])
      × (certificate : Text) × (rest : List Text) × (state.peer_certificates ≡ certificate ∷ rest)
      × (principals (fingerprint certificate) ≡ some p)
      × (is_valid p ≡ true)
unfolding authenticate_peer
authenticate_peer_sound fingerprint principals none h = cc
authenticate_peer_sound fingerprint principals (some state) h =
    let (chained, certificate, rest, parts, configured, valid) =
      authenticate_chains_sound fingerprint principals state.verified_chains state.peer_certificates
        h in
    (state, refl, chained, certificate, rest, parts, configured, valid)
