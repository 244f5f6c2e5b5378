-- ===== src/Trust/Validate.antt =====
-- Config.Validate, FindServer, FindProfile and FindCatalogSource of internal/trust/config.go.
pub mod Servers
pub mod Profiles
pub mod Sound
use skillex.Prelude.{
  ◌==◌, Bool, true, false, ◌&&◌, ◌||◌, not, Option, none, some, List, [], ◌∷◌, ◌++◌, Text, codes,
  is_empty, text_eq, elem, has_prefix, contains_any, contains_text, if◌then◌else◌, Result, ok, err,
  ◌>>=◌, ◌>>◌, guard,
}
use skillex.Capability.Integers.{ℤ, pos, negsuc}
use skillex.Trust.Types.{
  Credential, CredentialProfile, MtlsConfig, StdioConfig, HttpConfig, HttpHeaderInject,
  TrustedServer, CatalogSource, TelemetryConfig, OauthStoreConfig, Config, FilePaths,
}
use skillex.Trust.Endpoint.{ParsedUrl, is_valid_endpoint}
use skillex.Trust.Checks.{
  Invalid, version_unsupported, telemetry_relative, oauth_store_relative, catalog_invalid,
  catalog_duplicated, server_incomplete, server_version_inexact, server_duplicated,
  transport_not_one, command_relative, directory_relative, endpoint_invalid, mtls_incomplete,
  project_relative, profile_incomplete, profile_duplicated, profile_mixed, credential_incomplete,
  header_unsafe, profile_unknown, oauth_without_http, Check, passed, each, where_set, is_set,
  is_none_given, validate_sources, validate_oauth_profile, safe_name,
}

abbrev pub project_root : Text
project_root = codes "${projectRoot}"

-- The bytes that a range of versions has.
abbrev pub range_bytes : Text
range_bytes = codes "*^~<>=|, " ++ 0x09 ∷ 0x0d ∷ 0x0a ∷ []

-- server.Server + "\x00" + server.Version
abbrev pub server_key : TrustedServer → Text
server_key s = s.server ++ 0 ∷ s.version

abbrev pub not_equal : Bool → Bool → Bool
not_equal true b = not b
not_equal false b = b

-- FindProfile
unfoldable pub find_profile : Text → List CredentialProfile → Option CredentialProfile
find_profile name [] = none
find_profile name (p ∷ profiles) =
    if text_eq p.name name then some p else find_profile name profiles

-- FindServer
unfoldable pub find_server : Text → Text → List TrustedServer → Option TrustedServer
find_server name version [] = none
find_server name version (s ∷ servers) =
    if text_eq s.server name && text_eq s.version version
    then some s
    else find_server name version servers

-- FindCatalogSource
unfoldable pub find_catalog_source : Text → List CatalogSource → Option CatalogSource
find_catalog_source name [] = none
find_catalog_source name (s ∷ sources) =
    if text_eq s.name name then some s else find_catalog_source name sources

-- The loop over CatalogSources, with the names that were seen.
unfoldable pub catalogs_loop : List CatalogSource → List Text → Check
catalogs_loop [] seen = passed
catalogs_loop (s ∷ sources) seen = do
  guard (safe_name s.name && (text_eq s.kind (codes "registry-api") && not (is_empty s.base_url)))
      catalog_invalid
  guard (not (elem s.name seen)) catalog_duplicated
  catalogs_loop sources (s.name ∷ seen)

module _ (files : FilePaths) (parse_url : Text → Option ParsedUrl) where
  unfoldable pub validate_mtls : MtlsConfig → Check
  validate_mtls m = do
    guard (not (is_none_given m.certificate_sources || is_none_given m.private_key_sources))
        mtls_incomplete
    validate_sources files m.certificate_sources
    validate_sources files m.private_key_sources

  abbrev pub check_command : StdioConfig → Check
  check_command c = guard (files.is_abs c.command) command_relative

  abbrev pub check_directory : StdioConfig → Check
  check_directory c =
      guard
        (is_empty c.directory || (files.is_abs c.directory || has_prefix c.directory project_root))
        directory_relative

  unfoldable pub check_http : HttpConfig → Check
  check_http h = do
    guard (is_valid_endpoint parse_url h.endpoint) endpoint_invalid
    where_set h.mtls validate_mtls

  abbrev pub check_project : Text → Check
  check_project project =
      guard (text_eq project project_root || files.is_abs project) project_relative

  -- The checks of a server's transport.
  unfoldable pub validate_transport : TrustedServer → Check
  validate_transport s = do
    guard (not_equal (is_set s.stdio) (is_set s.http)) transport_not_one
    where_set s.stdio check_command
    where_set s.stdio check_directory
    where_set s.http check_http

  -- The loop over Servers, with the keys that were seen.
  unfoldable pub servers_loop : List TrustedServer → List Text → Check
  servers_loop [] seen = passed
  servers_loop (s ∷ servers) seen = do
    guard (not (is_empty s.server || is_empty s.version)) server_incomplete
    guard (not (contains_any s.version range_bytes)) server_version_inexact
    guard (not (elem (server_key s) seen)) server_duplicated
    validate_transport s
    each check_project s.allowed_projects
    servers_loop servers (server_key s ∷ seen)

  abbrev pub check_header : HttpHeaderInject → Check
  check_header h =
      guard
        (not (
          is_empty h.name
          || (contains_any h.name (0x0d ∷ 0x0a ∷ 0x3a ∷ [])
              || not (contains_text h.format (codes "${value}")))))
        header_unsafe

  unfoldable pub validate_credential : Credential → Check
  validate_credential c = do
    guard
        (not (
          is_empty c.slot
          || (is_none_given c.sources
              || (is_empty c.inject.stdio_env && not (is_set c.inject.http_header)))))
        credential_incomplete
    where_set c.inject.http_header check_header
    validate_sources files c.sources

  -- The loop over CredentialProfiles, with the names that were seen.
  unfoldable pub profiles_loop : List CredentialProfile → List Text → Check
  profiles_loop [] seen = passed
  profiles_loop (p ∷ profiles) seen = do
    guard (not (is_empty p.name || is_empty p.service)) profile_incomplete
    guard (not (elem p.name seen)) profile_duplicated
    guard (not (is_set p.oauth && not (is_none_given p.credentials))) profile_mixed
    where_set p.oauth (validate_oauth_profile files)
    each validate_credential p.credentials
    profiles_loop profiles (p.name ∷ seen)

  -- One profile that a server names.
  unfoldable pub validate_reference : List CredentialProfile → TrustedServer → Text → Check
  validate_reference profiles s name = elim (find_profile name profiles) [
    | none ↦ err profile_unknown
    | some p ↦ guard (not (is_set p.oauth && not (is_set s.http))) oauth_without_http
  ]

  abbrev pub telemetry_fits : Option TelemetryConfig → Bool
  telemetry_fits none = true
  telemetry_fits (some t) = not (t.enabled && not (files.is_abs t.path))

  abbrev pub oauth_store_fits : Option OauthStoreConfig → Bool
  oauth_store_fits none = true
  oauth_store_fits (some o) = files.is_abs o.key_path && files.is_abs o.directory

  abbrev pub is_version : ℤ → Bool
  is_version (pos n) = n == 1
  is_version (negsuc n) = false

  -- Config.Validate
  unfoldable pub validate : Config → Check
  validate c = do
    guard (is_version c.version) version_unsupported
    guard (telemetry_fits c.telemetry) telemetry_relative
    guard (oauth_store_fits c.oauth_store) oauth_store_relative
    catalogs_loop c.catalog_sources []
    servers_loop c.servers []
    profiles_loop c.credential_profiles []
    each (λ s. each (validate_reference c.credential_profiles s) s.auth_profiles) c.servers
