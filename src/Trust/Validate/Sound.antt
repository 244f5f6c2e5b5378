-- ===== src/Trust/Validate/Sound.antt =====
-- What a configuration satisfies that Config.Validate of internal/trust/config.go lets through.
use skillex.Prelude.{
  ◌≡◌, true, false, ◌&&◌, not, Option, some, List, [], map, Text, is_unique, All, All-imp, guard,
}
use skillex.Trust.Types.{CredentialProfile, TrustedServer, Config, FilePaths}
use skillex.Trust.Endpoint.{ParsedUrl}
use skillex.Trust.Checks.{
  passed, each, is_set, version_unsupported, telemetry_relative, oauth_store_relative,
}
use skillex.Trust.Checks.Passed.{both_passed, each-passed}
use skillex.Trust.Validate.{
  server_key, find_profile, is_version, telemetry_fits, oauth_store_fits, catalogs_loop,
  servers_loop, profiles_loop, validate_reference, validate,
}
use skillex.Trust.Validate.Servers.{IsTrusted, servers_loop_sound}
use skillex.Trust.Validate.Profiles.{IsUsable, profiles_loop_sound, validate_reference_sound}

-- Every profile that a server names is configured, and one with OAuth only for a server over HTTP.
abbrev pub AreKnown : List CredentialProfile → TrustedServer → Type 0
AreKnown profiles s =
    All
      (λ name.
        (p : CredentialProfile) × (find_profile name profiles ≡ some p)
        × ((is_set p.oauth && not (is_set s.http)) ≡ false))
      s.auth_profiles

pub validate_sound :
    (files : FilePaths) (parse_url : Text → Option ParsedUrl) (c : Config)
    → validate files parse_url c ≡ passed
    → All (IsTrusted files parse_url) c.servers
      × (is_unique (map server_key c.servers) ≡ true)
      × All (IsUsable files) c.credential_profiles
      × (is_unique (map (λ p. p.name) c.credential_profiles) ≡ true)
      × All (AreKnown c.credential_profiles) c.servers
unfolding validate
validate_sound files parse_url c e =
    let (version, a) =
      both_passed (guard (is_version files parse_url c.version) version_unsupported) _ e in
    let (telemetry, b) =
      both_passed (guard (telemetry_fits files parse_url c.telemetry) telemetry_relative) _ a in
    let (store, d) =
      both_passed (guard (oauth_store_fits files parse_url c.oauth_store) oauth_store_relative) _
        b in
    let (catalogs, f) = both_passed (catalogs_loop c.catalog_sources []) _ d in
    let (servers, g) = both_passed (servers_loop files parse_url c.servers []) _ f in
    let (profiles, references) =
      both_passed (profiles_loop files parse_url c.credential_profiles []) _ g in
    let (trusted, (keys, k)) = servers_loop_sound files parse_url c.servers [] servers in
    let (sound, (names, n)) =
      profiles_loop_sound files parse_url c.credential_profiles [] profiles in
    (
      trusted,
      keys,
      sound,
      names,
      All-imp c.servers
          (λ s h.
            All-imp s.auth_profiles
              (λ name known.
                validate_reference_sound files parse_url c.credential_profiles s name known)
              (each-passed (validate_reference files parse_url c.credential_profiles s)
                s.auth_profiles h))
          (each-passed
            (λ s. each (validate_reference files parse_url c.credential_profiles s) s.auth_profiles)
            c.servers references),
    )
