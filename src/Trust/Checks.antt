-- ===== src/Trust/Checks.antt =====
-- The checks of single items in internal/trust/config.go: validateSources, validateOAuthProfile, safeName.

pub mod Passed
use skillex.Prelude.{
  ℕ, ◌+◌, ◌==◌, Bool, true, false, ◌&&◌, ◌||◌, not, Option, none, some, List, [], ◌∷◌, ◌++◌, Text,
  codes, is_empty, text_eq, elem, any, has_prefix, contains_any, contains_text, length,
  if◌then◌else◌, Result, ok, err, ◌>>=◌, ◌>>◌, guard,
}
use skillex.Capability.Integers.{ℤ, pos, negsuc}
use skillex.Trust.Types.{
  EnvSource, DotenvSource, KeychainSource, HelperSource, CredentialSource, HttpHeaderInject,
  Credential, OauthProfile, CredentialProfile, MtlsConfig, HttpConfig, StdioConfig, TrustedServer,
  CatalogSource, TelemetryConfig, OauthStoreConfig, Config, FilePaths,
}

-- The messages of Validate, without the places that they name.
pub data Invalid : Type 0 where
  version_unsupported telemetry_relative oauth_store_relative : Invalid
  catalog_invalid catalog_duplicated : Invalid
  server_incomplete server_version_inexact server_duplicated transport_not_one : Invalid
  command_relative directory_relative endpoint_invalid mtls_incomplete project_relative : Invalid
  profile_incomplete profile_duplicated profile_mixed credential_incomplete header_unsafe : Invalid
  profile_unknown oauth_without_http : Invalid
  oauth_incomplete oauth_type_unsupported oauth_method_unsupported : Invalid
  source_incomplete source_not_one : Invalid

abbrev pub Check : Type 0
Check = Result Invalid (Unit {0})

abbrev pub passed : Check
passed = ok tt

-- for _, item := range items { if err := check(item); err != nil { return err } }
unfoldable pub each : {A : Type 0} → (A → Check) → List A → Check
each check [] = passed
each check (x ∷ xs) = do check x; each check xs

-- if pointer != nil { … }
abbrev pub where_set : {A : Type 0} → Option A → (A → Check) → Check
where_set none check = passed
where_set (some a) check = check a

abbrev pub is_set : {A : Type 0} → Option A → Bool
is_set none = false
is_set (some a) = true

abbrev pub one_if : Bool → ℕ
one_if b = if b then 1 else 0

abbrev pub is_none_given : {A : Type 0} → List A → Bool
is_none_given xs = length xs == 0

-- The counter `configured` of validateSources.
unfoldable pub configured : CredentialSource → ℕ
configured s =
    one_if (is_set s.env)
    + (one_if (is_set s.dotenv) + (one_if (is_set s.keychain) + one_if (is_set s.helper)))

abbrev pub check_env : EnvSource → Check
check_env e = guard (not (is_empty e.key)) source_incomplete

abbrev pub check_dotenv : DotenvSource → Check
check_dotenv d = guard (not (is_empty d.path || is_empty d.key)) source_incomplete

abbrev pub check_keychain : KeychainSource → Check
check_keychain k = guard (not (is_empty k.service || is_empty k.account)) source_incomplete

module _ (files : FilePaths) where
  abbrev pub check_helper : HelperSource → Check
  check_helper h = guard (files.is_abs h.command) source_incomplete

  -- One round of the loop of validateSources.
  unfoldable pub validate_source : CredentialSource → Check
  validate_source s = do
    where_set s.env check_env
    where_set s.dotenv check_dotenv
    where_set s.keychain check_keychain
    where_set s.helper check_helper
    guard (configured s == 1) source_not_one

  -- validateSources
  unfoldable pub validate_sources : List CredentialSource → Check
  validate_sources = each validate_source

  -- The switch of validateOAuthProfile.
  unfoldable pub validate_oauth_kind : OauthProfile → Check
  validate_oauth_kind o =
      if text_eq o.kind (codes "client-credentials")
      then (do
        guard (not (is_empty o.client_id)) oauth_incomplete
        guard
            (not (
              is_none_given (
                if text_eq o.client_auth_method (codes "private_key_jwt")
                then o.private_key_sources
                else o.client_secret_sources)))
            oauth_incomplete
        guard
            (is_empty o.client_auth_method
              || elem o.client_auth_method (
                  codes "client_secret_post"
                  ∷ codes "client_secret_basic"
                  ∷ codes "private_key_jwt"
                  ∷ []))
            oauth_method_unsupported)
      else if text_eq o.kind (codes "enterprise-managed")
      then guard
          (not (
            is_empty o.idp_token_endpoint
            || (is_none_given o.identity_assertion_sources || is_empty o.resource_client_id)))
          oauth_incomplete
      else if text_eq o.kind (codes "authorization-code")
      then guard
          (not
            ((is_empty o.client_id && not o.allow_dynamic_registration) || is_empty o.redirect_uri))
          oauth_incomplete
      else if text_eq o.kind (codes "workload-token-exchange")
      then guard
          (not (is_none_given o.subject_token_sources || is_empty o.workload_subject_token_type))
          oauth_incomplete
      else err oauth_type_unsupported

  -- validateOAuthProfile; a group without sources passes its own check.
  unfoldable pub validate_oauth_profile : OauthProfile → Check
  unfolding validate_oauth_kind
  validate_oauth_profile o = do
    guard (not (is_empty o.protected_resource_metadata_url || is_empty o.resource)) oauth_incomplete
    validate_oauth_kind o
    each validate_sources (
        o.client_secret_sources ∷ o.private_key_sources ∷ o.identity_assertion_sources
        ∷ o.idp_client_secret_sources ∷ o.subject_token_sources ∷ [])

-- safeName
abbrev pub safe_bytes : Text
safe_bytes = codes "abcdefghijklmnopqrstuvwxyzABCDEFGHIJKLMNOPQRSTUVWXYZ0123456789-_."

unfoldable pub safe_name : Text → Bool
safe_name value =
    not (is_empty value || (text_eq value (codes ".") || text_eq value (codes "..")))
    && not (any (λ c. not (any (λ d. c == d) safe_bytes)) value)
