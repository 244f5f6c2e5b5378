-- ===== src/Trust/Validate/Servers.antt =====
-- The servers that Config.Validate of internal/trust/config.go lets through.
use skillex.Prelude.{
  ◌≡◌, refl, ◌⊎◌, inl, inr, Bool-cases, Option-cases, text_eq_iff, codes, has_prefix, ◌&&◌, true,
  false, ◌||◌, not, Option, none, some, List, [], ◌∷◌, map, Text, is_empty, text_eq, elem,
  is_unique, contains_any, All, All-imp, guard, arith,
}
use skillex.Trust.Types.{StdioConfig, HttpConfig, TrustedServer, FilePaths}
use skillex.Trust.Endpoint.{ParsedUrl, is_loopback_host, is_valid_endpoint}
use skillex.Trust.Checks.{
  passed, each, where_set, is_set, server_incomplete, server_version_inexact, server_duplicated,
  transport_not_one, command_relative, directory_relative, endpoint_invalid, project_relative,
}
use skillex.Trust.Checks.Passed.{
  both_passed, guard-passed, each-passed, WhereSet, WhereSet-passed, AreFresh, AreFresh-cons,
}
use skillex.Trust.Validate.{
  project_root, range_bytes, server_key, not_equal, check_command, check_directory, check_http,
  check_project, validate_transport, servers_loop,
}

-- An endpoint is a URL with a host and no user, query or fragment, over https unless the host is this
-- machine.
abbrev pub IsSafeEndpoint : (Text → Option ParsedUrl) → Text → Type 0
IsSafeEndpoint parse_url endpoint =
    (u : ParsedUrl) × (parse_url endpoint ≡ some u)
    × (is_empty u.host ≡ false)
    × (u.has_user ≡ false)
    × (is_empty u.raw_query ≡ true)
    × (is_empty u.fragment ≡ true)
    × ((u.scheme ≡ codes "https")
        ⊎ ((u.scheme ≡ codes "http") × (is_loopback_host u.hostname ≡ true)))

safe_scheme :
    (u : ParsedUrl)
    → (text_eq u.scheme (codes "https")
        || (text_eq u.scheme (codes "http") && is_loopback_host u.hostname))
      ≡ true
    → (u.scheme ≡ codes "https")
      ⊎ ((u.scheme ≡ codes "http") × (is_loopback_host u.hostname ≡ true))
safe_scheme u h = elim (Bool-cases (text_eq u.scheme (codes "https"))) [
  | inl e ↦ inl ((text_eq_iff u.scheme (codes "https")).0 e)
  | inr e ↦ inr ((text_eq_iff u.scheme (codes "http")).0 (ground arith), ground arith)
]

is_valid_endpoint_sound :
    (parse_url : Text → Option ParsedUrl) (endpoint : Text)
    → is_valid_endpoint parse_url endpoint ≡ true
    → IsSafeEndpoint parse_url endpoint
unfolding is_valid_endpoint
is_valid_endpoint_sound parse_url endpoint h = elim (Option-cases (parse_url endpoint)) [
  | inl e ↦ absurd (ground arith)
  | inr (u, e) ↦
      let k = rw (is_valid_endpoint, e) at h in
      (u, e, ground arith, ground arith, ground arith, ground arith, safe_scheme u (ground arith))
]

module _ (files : FilePaths) (parse_url : Text → Option ParsedUrl) where
  -- An absolute command, and a directory that is absolute, in the project or not given.
  abbrev pub IsPlaced : StdioConfig → Type 0
  IsPlaced c =
      (files.is_abs c.command ≡ true)
      × ((is_empty c.directory || (files.is_abs c.directory || has_prefix c.directory project_root))
          ≡ true)

  -- A name, an exact version, one transport, and nothing that depends on the working directory.
  abbrev pub IsTrusted : TrustedServer → Type 0
  IsTrusted s =
      (is_empty s.server ≡ false)
      × (is_empty s.version ≡ false)
      × (contains_any s.version range_bytes ≡ false)
      × (not_equal (is_set s.stdio) (is_set s.http) ≡ true)
      × WhereSet s.stdio IsPlaced
      × WhereSet s.http (λ h. IsSafeEndpoint parse_url h.endpoint)
      × All (λ p. (text_eq p project_root || files.is_abs p) ≡ true) s.allowed_projects

  check_http-passed :
      (h : HttpConfig) → check_http files parse_url h ≡ passed → IsSafeEndpoint parse_url h.endpoint
  unfolding check_http
  check_http-passed h e =
      let (valid, rest) =
        both_passed (guard (is_valid_endpoint parse_url h.endpoint) endpoint_invalid) _ e in
      is_valid_endpoint_sound parse_url h.endpoint
        (guard-passed (is_valid_endpoint parse_url h.endpoint) endpoint_invalid valid)

  IsPlaced-both :
      (o : Option StdioConfig)
      → where_set o (check_command files parse_url) ≡ passed
      → where_set o (check_directory files parse_url) ≡ passed
      → WhereSet o IsPlaced
  IsPlaced-both none command directory = tt
  IsPlaced-both (some c) command directory = (
    guard-passed (files.is_abs c.command) command_relative command,
    guard-passed
        (is_empty c.directory || (files.is_abs c.directory || has_prefix c.directory project_root))
        directory_relative directory,
  )

  validate_transport-passed :
      (s : TrustedServer)
      → validate_transport files parse_url s ≡ passed
      → (not_equal (is_set s.stdio) (is_set s.http) ≡ true)
        × WhereSet s.stdio IsPlaced
        × WhereSet s.http (λ h. IsSafeEndpoint parse_url h.endpoint)
  unfolding validate_transport
  validate_transport-passed s e =
      let (one, a) =
        both_passed (guard (not_equal (is_set s.stdio) (is_set s.http)) transport_not_one) _ e in
      let (command, b) = both_passed (where_set s.stdio (check_command files parse_url)) _ a in
      let (directory, http) =
        both_passed (where_set s.stdio (check_directory files parse_url)) _ b in
      (
        guard-passed (not_equal (is_set s.stdio) (is_set s.http)) transport_not_one one,
        IsPlaced-both s.stdio command directory,
        WhereSet-passed s.http (check_http files parse_url) check_http-passed http,
      )

  check_project-passed :
      (p : Text)
      → check_project files parse_url p ≡ passed
      → (text_eq p project_root || files.is_abs p) ≡ true
  check_project-passed p e =
      guard-passed (text_eq p project_root || files.is_abs p) project_relative e

  pub servers_loop_sound :
      (servers : List TrustedServer) (seen : List Text)
      → servers_loop files parse_url servers seen ≡ passed
      → All IsTrusted servers × AreFresh (map server_key servers) seen
  unfolding servers_loop
  servers_loop_sound [] seen e = (tt, unfold is_unique in (refl, refl))
  servers_loop_sound (s ∷ servers) seen e =
      let (named, a) =
        both_passed (guard (not (is_empty s.server || is_empty s.version)) server_incomplete) _ e in
      let (exact, b) =
        both_passed (guard (not (contains_any s.version range_bytes)) server_version_inexact) _ a in
      let (new, c) = both_passed (guard (not (elem (server_key s) seen)) server_duplicated) _ b in
      let (transport, d) = both_passed (validate_transport files parse_url s) _ c in
      let (projects, rest) =
        both_passed (each (check_project files parse_url) s.allowed_projects) _ d in
      let (trusted, fresh) = servers_loop_sound servers (server_key s ∷ seen) rest in
      let (one, command, http) = validate_transport-passed s transport in
      let complete =
        guard-passed (not (is_empty s.server || is_empty s.version)) server_incomplete named in
      let exact_version =
        guard-passed (not (contains_any s.version range_bytes)) server_version_inexact exact in
      let new_key = guard-passed (not (elem (server_key s) seen)) server_duplicated new in
      (
        (
          (
            ground arith,
            ground arith,
            ground arith,
            one,
            command,
            http,
            All-imp s.allowed_projects check_project-passed
                (each-passed (check_project files parse_url) s.allowed_projects projects),
          ),
          trusted,
        ),
        AreFresh-cons (server_key s) (map server_key servers) seen (ground arith) fresh,
      )
