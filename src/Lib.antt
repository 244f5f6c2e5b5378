-- ===== src/Lib.antt =====
-- Skillex: discovery of documented skills and of MCP capabilities, and calls of the capabilities.
--
-- The parts. A linker assigns to every scanned skill the scopes it is visible under. A registry (an
-- SQLite index, rebuilt from the linked skills of a repository and its packages) answers which skills
-- apply to a path, a topic, a tag or a package. A query engine wraps it with filters, pages and byte
-- budgets for an agent. A broker does the same for the capabilities of downstream MCP servers: it gives
-- out short-lived signed references, describes the capability that a reference names, and calls it
-- after checks of context, view, schema, readiness, arguments and policy. The query engine asks the
-- broker for its pages, and the broker the capability package for digests and references. A hosted
-- service first turns a request into a principal, whose partition it hands to the broker. A trust
-- configuration that the user keeps says which servers may run for which project, and from where their
-- credentials come. The catalog that the broker is given keeps capabilities in tables beside the
-- skills, by the view of the tenant they belong to.
--
-- Which file models what, by paths from the repository's root:
--   Prelude, Errors       texts as bytes, lists, results, sorting; the sentinel errors
--   Registry.Path         internal/registry/path.go: classifyScope, pathPrefixes, globMatchPath
--   Registry.Tables       the rows beside a skill, and the SQL statements on them
--   Registry.Store        internal/registry/registry.go: InsertSkill, DeleteSkillByPath,
--                         GetSkillByPath, Clear, test scenarios
--   Registry.Lookup       QueryByPath (path.go), QueryByTopic, QueryByTags, QueryByPackage, Query and
--                         AllSkills (registry.go)
--   Capability.Model      internal/capability/model.go: Validate, the digest of the schemas
--   Capability.Reference  internal/capability/ref.go: NewReferenceSigner, Issue, Verify
--   Capability.Description  internal/capability/description.go: MarshalDescription
--   Broker                internal/broker/broker.go: QueryPage (Discover), Describe, Call and
--                         CallWithInput (Call)
--   Catalog               internal/registry/capability.go: InsertCapability (Insert), the reads (Rows,
--                         Resolve, Page) and ApplyCapabilitySuggestions (Suggest), and
--                         internal/catalog/registry.go over them (Adapter)
--   Linker                internal/linker/linker.go: Link, MatchesPath, ScopesForPath
--   Tenant                internal/tenant/principal.go: Validate, Partition, DeriveSigningKey
--   HostedAuth            internal/hostedauth/auth.go: the two Authenticate methods
--   SigningKey            internal/capability/key.go: loadOrCreateSigningKey, as the steps of several
--                         processes on one file
--   Trust                 internal/trust/config.go: Validate (Checks, Validate), resolveSources and what
--                         it calls (Sources), Ready and StdioConfig (Launch); Endpoint is the test
--                         of URLs by NewFactory in internal/connector/streamhttp/http.go
--   UpdateCheck           internal/updatecheck/check.go and sources.go: Notices, due, retryAt and when a
--                         version is noticed
--   Query.Limits          internal/query/query.go: compactText, the budget of Read
--   Query.Cursor          encodeCursor, decodeCursor
--   Query.Facets          buildVocabulary, buildNarrowWith
--   Query.Page            the page of Execute
--   Query.Match           hasFilters, filterByPath, and the skills that Execute finds
--   Query.Engine          Execute, vocabularyResponse, noMatchResponse
-- The child modules of a file (Laws, Invariant, Safety, ByPath, Kinds, …) hold what is proved of it,
-- and the modules Tests hold runs and instances.
--
-- How code becomes definitions. A struct is a record, a Go string is its list of bytes, `int` where it
-- may be negative is ℤ, and a value with an error is a Result or, where no error is told apart, an
-- Option; white space that is trimmed is that of ASCII. A table of the database is a list of rows in the order of insertion, an operation on it a
-- function from tables to tables. A clock is a number of nanoseconds. A broker operation returns the
-- list of what it does outside itself (events, policy, connectors) with its result. The writes of the
-- registry are also a data type, so that the store can be run over any sequence of them and compared
-- with a map (Registry.Store.Refinement, Registry.Lookup.Discovery). Processes that share a file are a
-- list of steps, in the order in which they happen (SigningKey, UpdateCheck). Loops are structural
-- recursion; no operation runs on fuel. The one bound, in `Query.Engine.Walk.follow`, is on
-- the number of pages that a client asks for: one for each match and one more are enough, since a page
-- before the last has at least one result.
--
-- Parameters, since their code is not in the repository: the glob library, JSON, base64, SHA-256,
-- HMAC, RSA and X.509, path/filepath, net/url, semver, the operating system (`Trust.Sources.Machine`
-- and the answers in the steps of SigningKey and UpdateCheck), the random source, the JSON schema
-- validator, and the full-text index, LIKE and datetime of SQLite. The catalog, the policy and the
-- connectors are interfaces of the broker, and parameters too; Catalog.Adapter is a catalog that the
-- broker is given.
--
-- Not modelled: failures of SQLite, the score and excerpts of a search, the sections of a document,
-- time stamps of rows, the static catalog of capabilities, the scanner and packs, the loading of the
-- trust configuration and its HTTP and OAuth parts, OAuth, the connectors, the watcher, the request and
-- the texts of update notices, telemetry, the command line and the MCP server.
pub mod Prelude
pub mod Errors
pub mod Registry
pub mod Capability
pub mod Broker
pub mod Query
pub mod Catalog
pub mod Linker
pub mod HostedAuth
pub mod Tenant
pub mod Trust
pub mod SigningKey
pub mod UpdateCheck
