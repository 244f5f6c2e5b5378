-- ===== src/Trust/Validate/Profiles.antt =====
-- The credential profiles that Config.Validate of internal/trust/config.go lets through.
use skillex.Prelude.{
  ◌≡◌, refl, Bool, true, false, ◌⊎◌, codes, contains_any, contains_text, ◌||◌, ◌&&◌, not, Option,
  some, List, [], ◌∷◌, map, Text, is_empty, elem, is_unique, All, All-imp, guard, arith,
  Option-cases, inl, inr,
}
use skillex.Trust.Types.{HttpHeaderInject, Credential, CredentialProfile, TrustedServer, FilePaths}
use skillex.Trust.Endpoint.{ParsedUrl}
use skillex.Trust.Checks.{
  passed, each, where_set, is_set, is_none_given, header_unsafe, validate_oauth_profile,
  credential_incomplete, profile_incomplete, profile_duplicated, profile_mixed, oauth_without_http,
}
use skillex.Trust.Checks.Passed.{
  both_passed, guard-passed, each-passed, validate_sources_sound, IsOnePlace, WhereSet,
  WhereSet-passed, AreFresh, AreFresh-cons,
}
use skillex.Trust.Validate.{
  check_header, validate_credential, profiles_loop, find_profile, validate_reference,
}

-- A header that cannot be split or spoofed, and whose format has a place for the value.
abbrev pub IsSafeHeader : HttpHeaderInject → Type 0
IsSafeHeader h =
    (is_empty h.name ≡ false)
    × (contains_any h.name (0x0d ∷ 0x0a ∷ 0x3a ∷ []) ≡ false)
    × (contains_text h.format (codes "${value}") ≡ true)

-- A credential has a slot, a source, and a variable or a safe header to go to, and each of its sources
-- names exactly one place.
abbrev pub IsSourced : FilePaths → Credential → Type 0
IsSourced files c =
    (is_empty c.slot ≡ false)
    × (is_none_given c.sources ≡ false)
    × ((is_empty c.inject.stdio_env ≡ false) ⊎ (is_set c.inject.http_header ≡ true))
    × WhereSet c.inject.http_header IsSafeHeader
    × All (λ s. IsOnePlace files s.env s.dotenv s.keychain s.helper) c.sources

-- A profile has a name and a service, does not have both credentials and OAuth, and all its
-- credentials are sourced.
abbrev pub IsUsable : FilePaths → CredentialProfile → Type 0
IsUsable files p =
    (is_empty p.name ≡ false)
    × (is_empty p.service ≡ false)
    × ((is_set p.oauth && not (is_none_given p.credentials)) ≡ false)
    × All (IsSourced files) p.credentials

injected :
    (variable header : Bool)
    → (variable && not header) ≡ false
    → (variable ≡ false) ⊎ (header ≡ true)
injected true true h = inr refl
injected true false h = cc
injected false header h = inl refl

module _ (files : FilePaths) (parse_url : Text → Option ParsedUrl) where
  check_header-passed :
      (h : HttpHeaderInject) → check_header files parse_url h ≡ passed → IsSafeHeader h
  check_header-passed h e =
      let safe = not (
        is_empty h.name
        || (contains_any h.name (0x0d ∷ 0x0a ∷ 0x3a ∷ [])
            || not (contains_text h.format (codes "${value}")))) in
      let is_safe = guard-passed safe header_unsafe e in (ground arith, ground arith, ground arith)

  validate_credential-passed :
      (c : Credential) → validate_credential files parse_url c ≡ passed → IsSourced files c
  unfolding validate_credential
  validate_credential-passed c e =
      let complete = not (
        is_empty c.slot
        || (is_none_given c.sources
            || (is_empty c.inject.stdio_env && not (is_set c.inject.http_header)))) in
      let (slotted, a) = both_passed (guard complete credential_incomplete) _ e in
      let (header, sources) =
        both_passed (where_set c.inject.http_header (check_header files parse_url)) _ a in
      let is_complete = guard-passed complete credential_incomplete slotted in
      (
        ground arith,
        ground arith,
        injected (is_empty c.inject.stdio_env) (is_set c.inject.http_header) (ground arith),
        WhereSet-passed c.inject.http_header (check_header files parse_url) check_header-passed
            header,
        validate_sources_sound files c.sources sources,
      )

  pub profiles_loop_sound :
      (profiles : List CredentialProfile) (seen : List Text)
      → profiles_loop files parse_url profiles seen ≡ passed
      → All (IsUsable files) profiles × AreFresh (map (λ p. p.name) profiles) seen
  unfolding profiles_loop
  profiles_loop_sound [] seen e = (tt, unfold is_unique in (refl, refl))
  profiles_loop_sound (p ∷ profiles) seen e =
      let (named, a) =
        both_passed (guard (not (is_empty p.name || is_empty p.service)) profile_incomplete) _ e in
      let (new, b) = both_passed (guard (not (elem p.name seen)) profile_duplicated) _ a in
      let (pure, c) =
        both_passed
          (guard (not (is_set p.oauth && not (is_none_given p.credentials))) profile_mixed) _ b in
      let (oauth, d) = both_passed (where_set p.oauth (validate_oauth_profile files)) _ c in
      let (credentials, rest) =
        both_passed (each (validate_credential files parse_url) p.credentials) _ d in
      let (sound, fresh) = profiles_loop_sound profiles (p.name ∷ seen) rest in
      let is_named =
        guard-passed (not (is_empty p.name || is_empty p.service)) profile_incomplete named in
      let is_new = guard-passed (not (elem p.name seen)) profile_duplicated new in
      let is_pure =
        guard-passed (not (is_set p.oauth && not (is_none_given p.credentials))) profile_mixed
          pure in
      (
        (
          (
            ground arith,
            ground arith,
            ground arith,
            All-imp p.credentials validate_credential-passed
                (each-passed (validate_credential files parse_url) p.credentials credentials),
          ),
          sound,
        ),
        AreFresh-cons p.name (map (λ p. p.name) profiles) seen (ground arith) fresh,
      )

  -- A profile that a server names is there, and one with OAuth is for a server over HTTP.
  pub validate_reference_sound :
      (profiles : List CredentialProfile) (s : TrustedServer) (name : Text)
      → validate_reference files parse_url profiles s name ≡ passed
      → (p : CredentialProfile) × (find_profile name profiles ≡ some p)
        × ((is_set p.oauth && not (is_set s.http)) ≡ false)
  unfolding validate_reference
  validate_reference_sound profiles s name e = elim (Option-cases (find_profile name profiles)) [
    | inl missing ↦ absurd (ground arith)
    | inr (p, found) ↦
        let fits : guard (not (is_set p.oauth && not (is_set s.http))) oauth_without_http ≡ passed =
          ground arith in
        let h =
          guard-passed (not (is_set p.oauth && not (is_set s.http))) oauth_without_http fits in
        (p, found, ground arith)
  ]
