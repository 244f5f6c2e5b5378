-- ===== src/Trust/Tests.antt =====
-- Runs of the code of internal/trust, and the theorems about it at inputs where they apply.
use skillex.Prelude.{
  ◌≡◌, ◌≢◌, ◌⊎◌, refl, true, false, Option, none, some, List, [], ◌∷◌, Text, codes, text_eq, All,
  has_prefix, if◌then◌else◌, contains_any, contains_text, replace_all, replace_from, elem, ok, err,
}
use skillex.Errors.{other}
use skillex.Capability.Availability
use skillex.Capability.Integers.{pos}
use skillex.Capability.Model.{Capability}
use skillex.Capability.Samples.{sample}
use skillex.Trust.Types.{
  CredentialSource, Injection, CredentialProfile, StdioConfig, TrustedServer, Config, FilePaths,
}
use skillex.Trust.Endpoint.{ParsedUrl}
use skillex.Trust.Checks.{passed, each, configured, validate_source, validate_sources}
use skillex.Trust.Validate.{
  find_profile, find_server, catalogs_loop, validate_transport, servers_loop, validate_credential,
  profiles_loop, validate_reference, validate,
}
use skillex.Trust.Sources.{
  Machine, missing, linux, token_missing, expand_project_path, resolve_source, ask_sources,
  resolve_sources,
}
use skillex.Trust.Sources.First.{Decides, resolve_sources_first}
use skillex.Trust.Launch.{
  Launch, value_of, project_allowed, values_loop, server_of, profile_for, credential_values,
  credentials_present, profile_ready, server_ready, ready, environment_of, credentials_of,
  stdio_config,
}
use skillex.Trust.Launch.Environment.{IsEnvironment, IsApproved, stdio_config_sound}
use skillex.Trust.Launch.Configured.{Within, IsAllowed}
use skillex.Trust.Launch.Hindrance.{Hinders}
use skillex.Trust.Launch.Agreement.{stdio_config-ready}

abbrev files : FilePaths
files = record {
  is_abs = λ path. has_prefix path (codes "/");
  clean = λ path. path;
  abs = λ path. path;
  eval_symlinks = some;
  rel = λ base target. some target;
}

-- A machine whose environment holds TOKEN.
abbrev machine : Machine
machine = record {
  files = files;
  lookup_env = λ key. if text_eq key (codes "TOKEN") then some (codes "secret") else none;
  open_file = λ path. missing;
  platform = linux;
  look_path = λ name. none;
  run = λ command args timeout. record { chunks = []; succeeded = false; timed_out = false };
  load_token = λ profile. token_missing;
}

abbrev from_env : Text → CredentialSource
from_env key = record {
  env = some (record { key = key });
  dotenv = none;
  keychain = none;
  helper = none;
}

abbrev sources : List CredentialSource
sources = from_env (codes "MISSING") ∷ from_env (codes "TOKEN") ∷ []

abbrev profile_with : Injection → CredentialProfile
profile_with inject = record {
  name = codes "p";
  service = sample.server.identity.canonical_name;
  credentials = record { slot = codes "token"; sources = sources; inject = inject } ∷ [];
  oauth = none;
}

abbrev server : TrustedServer
server = record {
  server = sample.server.identity.canonical_name;
  version = sample.server.version;
  allowed_projects = codes "/w" ∷ [];
  auth_profiles = codes "p" ∷ [];
  stdio =
      some (record {
        command = codes "/bin/s";
        args = [];
        directory = [];
        startup_timeout_ms = pos 0;
      });
  http = none;
}

abbrev config_with : Injection → Config
config_with inject = record {
  version = pos 1;
  servers = server ∷ [];
  credential_profiles = profile_with inject ∷ [];
  telemetry = none;
  catalog_sources = [];
  oauth_store = none;
}

abbrev as_variable : Injection
as_variable = record { stdio_env = codes "API_TOKEN"; http_header = none }

abbrev as_header : Injection
as_header = record {
  stdio_env = [];
  http_header = some (record { name = codes "Authorization"; format = codes "Bearer ${value}" });
}

abbrev no_urls : Text → Option ParsedUrl
no_urls raw = none

-- The sample capability with the profile of the configuration.
abbrev selected : Capability
selected = record sample { auth_profile = codes "p" }

resolve_sources_first_example :
    (((ask_sources machine (codes "/w") sources).0 ≡ sources)
      × (resolve_sources machine (codes "/w") sources ≡ ok none)
      × All (λ s. resolve_source machine (codes "/w") s ≡ ok none) sources)
    ⊎ ((resolve_sources machine (codes "/w") sources ≢ ok none)
        × Decides machine
            (codes "/w")
            sources
            (ask_sources machine (codes "/w") sources).0
            (resolve_sources machine (codes "/w") sources))
resolve_sources_first_example = resolve_sources_first machine (codes "/w") sources

abbrev started : Launch
started = record {
  canonical_name = sample.server.identity.canonical_name;
  version = sample.server.version;
  command = codes "/bin/s";
  args = [];
  directory = [];
  environment = codes "API_TOKEN=secret" ∷ [];
  startup_timeout_ms = pos 0;
}

config-starts : stdio_config machine (config_with as_variable) selected (codes "/w") ≡ ok started
unfolding stdio_config credential_values find_server find_profile project_allowed profile_for
    values_loop value_of resolve_sources ask_sources resolve_source environment_of
    expand_project_path text_eq elem replace_all replace_from has_prefix
config-starts = refl

stdio_config_sound_example :
    (s : TrustedServer) × (stdio : StdioConfig) × (server_of (config_with as_variable) selected
      ≡ some s)
    × Within s (server ∷ [])
    × (s.server ≡ sample.server.identity.canonical_name)
    × (s.version ≡ sample.server.version)
    × IsAllowed files s.allowed_projects (codes "/w")
    × IsApproved (config_with as_variable) selected s
    × (s.stdio ≡ some stdio)
    × (sample.server.identity.canonical_name ≡ s.server)
    × (sample.server.version ≡ s.version)
    × (codes "/bin/s" ≡ stdio.command)
    × ([] ≡ stdio.args)
    × IsEnvironment machine
        (codes "/w")
        (credentials_of (find_profile (codes "p") (profile_with as_variable ∷ [])))
        (codes "API_TOKEN=secret" ∷ [])
stdio_config_sound_example =
    stdio_config_sound machine (config_with as_variable) selected (codes "/w") config-starts

header_config-valid : validate files no_urls (config_with as_header) ≡ passed
unfolding validate catalogs_loop servers_loop profiles_loop validate_transport validate_credential
    validate_sources validate_source configured each validate_reference find_profile text_eq
    has_prefix contains_any contains_text elem
header_config-valid = refl

header_config-ready :
    ready machine (config_with as_header) selected (codes "/w") ≡ Availability.ready
unfolding ready server_ready profile_ready credentials_present credential_values find_server
    find_profile project_allowed profile_for values_loop value_of resolve_sources ask_sources
    resolve_source text_eq elem
header_config-ready = refl

header_config-fails : stdio_config machine (config_with as_header) selected (codes "/w") ≡ err other
unfolding stdio_config credential_values find_server find_profile project_allowed profile_for
    values_loop value_of resolve_sources ask_sources resolve_source environment_of
    expand_project_path text_eq elem replace_all replace_from has_prefix
header_config-fails = refl

stdio_config-ready_example :
    (s : TrustedServer) × (values : List Text) × (server_of (config_with as_header) selected
      ≡ some s)
    × (project_allowed files s (codes "/w") ≡ true)
    × (credential_values machine (config_with as_header) selected (codes "/w") ≡ ok values)
    × Hinders machine (codes "/w") s (find_profile (codes "p") (profile_with as_header ∷ []))
    × (other ≡ other)
stdio_config-ready_example =
    stdio_config-ready machine no_urls (config_with as_header) selected (codes "/w") other
      header_config-valid header_config-ready header_config-fails
