-- ===== src/Trust/Types.antt =====
-- The data of internal/trust/config.go. A pointer that may be nil is an Option; a path on the machine
-- and a file are texts. The cache of tokens and the HTTP client of Config are left out.
use skillex.Prelude.{Bool, Option, List, Text}
use skillex.Capability.Integers.{ℤ}

pub record EnvSource : Type 0 where
  pub key : Text

pub record DotenvSource : Type 0 where
  pub path : Text
  pub key : Text

pub record KeychainSource : Type 0 where
  pub service : Text
  pub account : Text

pub record HelperSource : Type 0 where
  pub command : Text
  pub args : List Text
  pub timeout_ms : ℤ

pub record CredentialSource : Type 0 where
  pub env : Option EnvSource
  pub dotenv : Option DotenvSource
  pub keychain : Option KeychainSource
  pub helper : Option HelperSource

pub record HttpHeaderInject : Type 0 where
  pub name : Text
  pub format : Text

pub record Injection : Type 0 where
  pub stdio_env : Text
  pub http_header : Option HttpHeaderInject

pub record Credential : Type 0 where
  pub slot : Text
  pub sources : List CredentialSource
  pub inject : Injection

pub record OauthProfile : Type 0 where
  pub kind : Text
  pub protected_resource_metadata_url : Text
  pub resource : Text
  pub issuer : Text
  pub scopes : List Text
  pub client_id : Text
  pub client_name : Text
  pub allow_dynamic_registration : Bool
  pub client_secret_sources : List CredentialSource
  pub private_key_sources : List CredentialSource
  pub key_id : Text
  pub client_auth_method : Text
  pub idp_token_endpoint : Text
  pub identity_assertion_sources : List CredentialSource
  pub subject_token_type : Text
  pub idp_client_id : Text
  pub idp_client_secret_sources : List CredentialSource
  pub resource_client_id : Text
  pub redirect_uri : Text
  pub subject_token_sources : List CredentialSource
  pub workload_subject_token_type : Text

pub record CredentialProfile : Type 0 where
  pub name : Text
  pub service : Text
  pub credentials : List Credential
  pub oauth : Option OauthProfile

pub record MtlsConfig : Type 0 where
  pub certificate_sources : List CredentialSource
  pub private_key_sources : List CredentialSource
  pub server_name : Text

pub record HttpConfig : Type 0 where
  pub endpoint : Text
  pub timeout_ms : ℤ
  pub mtls : Option MtlsConfig

pub record StdioConfig : Type 0 where
  pub command : Text
  pub args : List Text
  pub directory : Text
  pub startup_timeout_ms : ℤ

-- Server
pub record TrustedServer : Type 0 where
  pub server : Text
  pub version : Text
  pub allowed_projects : List Text
  pub auth_profiles : List Text
  pub stdio : Option StdioConfig
  pub http : Option HttpConfig

pub record CatalogSource : Type 0 where
  pub name : Text
  pub kind : Text
  pub base_url : Text
  pub allowed_namespaces : List Text

pub record TelemetryConfig : Type 0 where
  pub enabled : Bool
  pub path : Text

pub record OauthStoreConfig : Type 0 where
  pub key_path : Text
  pub directory : Text

pub record Config : Type 0 where
  pub version : ℤ
  pub servers : List TrustedServer
  pub credential_profiles : List CredentialProfile
  pub telemetry : Option TelemetryConfig
  pub catalog_sources : List CatalogSource
  pub oauth_store : Option OauthStoreConfig

-- path/filepath
pub record FilePaths : Type 0 where
  pub is_abs : Text → Bool
  pub clean : Text → Text
  -- the first result of filepath.Abs
  pub abs : Text → Text
  -- filepath.EvalSymlinks and filepath.Rel
  pub eval_symlinks : Text → Option Text
  pub rel : Text → Text → Option Text
