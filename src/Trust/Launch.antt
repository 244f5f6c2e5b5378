-- ===== src/Trust/Launch.antt =====
-- Ready and StdioConfig of internal/trust/config.go: whether a capability can be called now, and how
-- its server is started.
pub mod Configured
pub mod Environment
pub mod Hindrance
pub mod Agreement
use skillex.Prelude.{
  ℕ, ◌*◌, Bool, true, false, ◌&&◌, ◌||◌, not, Option, none, some, List, [], ◌∷◌, ◌++◌, Text, codes,
  is_empty, text_eq, elem, any, replace_all, if◌then◌else◌, Result, ok, err, ◌>>=◌, ◌>>◌, guard,
}
use skillex.Errors.{
  Error, server_untrusted, project_untrusted, profile_untrusted, credential_missing, login_required,
  other,
}
use skillex.Capability.Availability
use skillex.Capability.Integers.{ℤ}
use skillex.Capability.Model.{Capability}
use skillex.Trust.Types.{
  CredentialSource, Credential, OauthProfile, CredentialProfile, MtlsConfig, HttpConfig,
  StdioConfig, TrustedServer, Config, FilePaths,
}
use skillex.Trust.Validate.{find_server, find_profile}
use skillex.Trust.Checks.{is_set, is_none_given}
use skillex.Trust.Sources.{
  Machine, SourceError, StoredToken, token_missing, token_unreadable, token, root_variable,
  expand_project_path, resolve_sources,
}

-- stdio.ServerConfig; the time is in milliseconds.
pub record Launch : Type 0 where
  pub canonical_name : Text
  pub version : Text
  pub command : Text
  pub args : List Text
  pub directory : Text
  pub environment : List Text
  pub startup_timeout_ms : ℤ

-- An error of the sources is none of the sentinels that a caller can tell apart, and so `other` here;
-- which one it is, is said by the SourceError of `resolve_sources`.
abbrev pub of_source : {A : Type 0} → Result SourceError A → Result Error A
of_source (ok a) = ok a
of_source (err e) = err other

abbrev pub need {ℓ} : {A : Type ℓ} → Error → Option A → Result Error A
need e none = err e
need e (some a) = ok a

-- The value of a credential that must be there.
unfoldable pub value_of : Machine → Text → List CredentialSource → Result Error Text
value_of m root sources = do
  found ← of_source (resolve_sources m root sources)
  need credential_missing found

-- projectAllowed
unfoldable pub project_allowed : FilePaths → TrustedServer → Text → Bool
project_allowed files s root =
    any
      (λ allowed.
        text_eq allowed root_variable
        || text_eq (files.clean (files.abs allowed)) (files.clean (files.abs root)))
      s.allowed_projects

-- The loop of credentialValues.
unfoldable pub values_loop : Machine → Text → List Credential → Result Error (List Text)
unfolding value_of
values_loop m root [] = ok []
values_loop m root (c ∷ credentials) = do
  value ← value_of m root c.sources
  values ← values_loop m root credentials
  ok (value ∷ values)

-- The server of a capability.
abbrev pub server_of : Config → Capability → Option TrustedServer
server_of c selected =
    find_server selected.server.identity.canonical_name selected.server.version c.servers

-- The profile of a capability, which must be for its server.
unfoldable pub profile_for : Config → Capability → Result Error CredentialProfile
profile_for c selected = do
  p ← need profile_untrusted (find_profile selected.auth_profile c.credential_profiles)
  guard (text_eq p.service selected.server.identity.canonical_name) profile_untrusted
  ok p

-- credentialValues
unfoldable pub credential_values : Machine → Config → Capability → Text → Result Error (List Text)
unfolding profile_for
credential_values m c selected root = if is_empty selected.auth_profile then ok [] else (do
  s ← need profile_untrusted (server_of c selected)
  guard (elem selected.auth_profile s.auth_profiles) profile_untrusted
  p ← profile_for c selected
  values_loop m root p.credentials)

-- The loop over groups of sources, each of which must have a value.
unfoldable pub groups_present :
    Machine → Text → List (List CredentialSource) → Result Error (Unit {0})
unfolding value_of
groups_present m root [] = ok tt
groups_present m root (sources ∷ groups) = do
  value ← value_of m root sources
  groups_present m root groups

-- mtlsSourcesPresent
unfoldable pub mtls_sources_present : Machine → Text → MtlsConfig → Result Error (Unit {0})
unfolding groups_present
mtls_sources_present m root config =
    groups_present m root (config.certificate_sources ∷ config.private_key_sources ∷ [])

-- The case "authorization-code" of credentialsPresent.
unfoldable pub login_present : StoredToken → Result Error (Unit {0})
login_present token_missing = err login_required
login_present token_unreadable = err other
login_present (token valid can_refresh) =
    if not valid && not can_refresh then err login_required else ok tt

-- The switch of credentialsPresent.
unfoldable pub oauth_present : Machine → Text → Text → OauthProfile → Result Error (Unit {0})
unfolding groups_present login_present
oauth_present m root name o =
    if text_eq o.kind (codes "client-credentials")
    then groups_present m root (
        (if text_eq o.client_auth_method (codes "private_key_jwt")
          then o.private_key_sources
          else o.client_secret_sources)
        ∷ [])
    else if text_eq o.kind (codes "enterprise-managed")
    then groups_present m root (
        o.identity_assertion_sources
        ∷ (if is_none_given o.idp_client_secret_sources
            then []
            else o.idp_client_secret_sources ∷ []))
    else if text_eq o.kind (codes "authorization-code")
    then login_present (m.load_token name)
    else if text_eq o.kind (codes "workload-token-exchange")
    then groups_present m root (o.subject_token_sources ∷ [])
    else ok tt

-- credentialsPresent, for a capability with a profile
unfoldable pub credentials_present : Machine → Config → Capability → Text → Result Error (Unit {0})
unfolding profile_for oauth_present
credentials_present m c selected root = do
  p ← profile_for c selected
  elim p.oauth [
    | none ↦ credential_values m c selected root >>= λ values. ok tt
    | some o ↦ oauth_present m root p.name o
  ]

-- The availability that an error stands for.
abbrev pub availability_of : Result Error (Unit {0}) → Text
availability_of (ok t) = Availability.ready
availability_of (err credential_missing) = Availability.credential_missing
availability_of (err login_required) = Availability.login_required
availability_of (err e) = Availability.setup_required

-- The same for the sources of mTLS, which know of no login.
abbrev pub mtls_present : Machine → Text → Option HttpConfig → Result Error (Unit {0})
mtls_present m root none = ok tt
mtls_present m root (some h) = elim h.mtls [ none ↦ ok tt | some t ↦ mtls_sources_present m root t ]

unfoldable pub profile_ready : Machine → Config → TrustedServer → Capability → Text → Text
unfolding credentials_present
profile_ready m c s selected root =
    if is_empty selected.auth_profile
    then Availability.ready
    else if not (elem selected.auth_profile s.auth_profiles)
    then Availability.policy_denied
    else availability_of (credentials_present m c selected root)

unfoldable pub server_ready : Machine → Config → TrustedServer → Capability → Text → Text
unfolding profile_ready mtls_sources_present
server_ready m c s selected root =
    if not (project_allowed m.files s root)
    then Availability.setup_required
    else elim (mtls_present m root s.http) [
      | ok t ↦ profile_ready m c s selected root
      | err e ↦ availability_of (err e)
    ]

-- Ready
unfoldable pub ready : Machine → Config → Capability → Text → Text
unfolding server_ready
ready m c selected root = elim (server_of c selected) [
  | none ↦ Availability.setup_required
  | some s ↦ server_ready m c s selected root
]

-- The loop of StdioConfig over the credentials of the profile and their values. The code panics where
-- there are fewer values than credentials, which only a profile with an empty name could bring about,
-- and Validate lets none through.
unfoldable pub environment_of : List Credential → List Text → Result Error (List Text)
environment_of [] values = ok []
environment_of (c ∷ credentials) [] = err other
environment_of (c ∷ credentials) (value ∷ values) = do
  guard (not (is_empty c.inject.stdio_env)) other
  rest ← environment_of credentials values
  ok ((c.inject.stdio_env ++ 0x3d ∷ value) ∷ rest)

abbrev pub credentials_of : Option CredentialProfile → List Credential
credentials_of none = []
credentials_of (some p) = p.credentials

abbrev pub has_oauth : Option CredentialProfile → Bool
has_oauth none = false
has_oauth (some p) = is_set p.oauth

-- StdioConfig
unfoldable pub stdio_config : Machine → Config → Capability → Text → Result Error Launch
unfolding credential_values environment_of
stdio_config m c selected root = do
  s ← need server_untrusted (server_of c selected)
  guard (project_allowed m.files s root) project_untrusted
  values ← credential_values m c selected root
  stdio ← need other s.stdio
  guard (not (has_oauth (find_profile selected.auth_profile c.credential_profiles))) other
  environment ←
      environment_of (credentials_of (find_profile selected.auth_profile c.credential_profiles))
        values
  directory ← of_source (expand_project_path m.files stdio.directory root false)
  ok (record {
    canonical_name = selected.server.identity.canonical_name;
    version = selected.server.version;
    command = stdio.command;
    args = stdio.args;
    directory = directory;
    environment = environment;
    startup_timeout_ms = stdio.startup_timeout_ms;
  })
