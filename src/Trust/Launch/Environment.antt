-- ===== src/Trust/Launch/Environment.antt =====
-- What StdioConfig of internal/trust/config.go hands to the process that it describes.
use skillex.Prelude.{
  ◌≡◌, ◌⊎◌, ap, ◌∙◌, sym, true, false, not, Option, none, some, List, [], ◌∷◌, ◌++◌, Text, is_empty,
  text_eq, text_eq_iff, elem, Result, ok, err, >>=-eq-ok, guard-eq-ok, Bool-cases, inl, inr, arith,
}
use skillex.Errors.{
  Error, server_untrusted, project_untrusted, profile_untrusted, credential_missing, other,
}
use skillex.Capability.Model.{Capability}
use skillex.Trust.Types.{
  CredentialSource, Credential, CredentialProfile, StdioConfig, TrustedServer, Config,
}
use skillex.Trust.Validate.{find_profile}
use skillex.Trust.Sources.{Machine, SourceError, resolve_sources, expand_project_path}
use skillex.Trust.Launch.Configured.{
  Within, find_server_sound, find_profile_sound, IsAllowed, project_allowed_sound,
}
use skillex.Trust.Launch.{
  Launch, of_source, need, value_of, project_allowed, values_loop, server_of, profile_for,
  credential_values, environment_of, credentials_of, has_oauth, stdio_config,
}

pub need-ok : {A : Type 0} (e : Error) (o : Option A) {a : A} → need e o ≡ ok a → o ≡ some a
need-ok e none h = cc
need-ok e (some a) h = cc

of_source-ok : {A : Type 0} (r : Result SourceError A) {a : A} → of_source r ≡ ok a → r ≡ ok a
of_source-ok (ok a) h = cc
of_source-ok (err e) h = cc

value_of-ok :
    (m : Machine) (root : Text) (sources : List CredentialSource) {v : Text}
    → value_of m root sources ≡ ok v
    → resolve_sources m root sources ≡ ok (some v)
unfolding value_of
value_of-ok m root sources h =
    let (found, e, k) = >>=-eq-ok (of_source (resolve_sources m root sources)) _ h in
    of_source-ok (resolve_sources m root sources) e ∙ ap ok (need-ok credential_missing found k)

-- One variable for each credential, in order, with the value that its sources have.
abbrev pub IsEnvironment : Machine → Text → List Credential → List Text → Type 0
IsEnvironment m root [] [] = Unit
IsEnvironment m root [] (entry ∷ entries) = ⊥
IsEnvironment m root (c ∷ credentials) [] = ⊥
IsEnvironment m root (c ∷ credentials) (entry ∷ entries) =
    ((v : Text) × (resolve_sources m root c.sources ≡ ok (some v))
      × (is_empty c.inject.stdio_env ≡ false)
      × (entry ≡ c.inject.stdio_env ++ 0x3d ∷ v))
    × IsEnvironment m root credentials entries

environment_of-IsEnvironment :
    (m : Machine) (root : Text) (credentials : List Credential) (values entries : List Text)
    → values_loop m root credentials ≡ ok values
    → environment_of credentials values ≡ ok entries
    → IsEnvironment m root credentials entries
unfolding environment_of values_loop
environment_of-IsEnvironment m root [] values [] h k = tt
environment_of-IsEnvironment m root [] values (entry ∷ entries) h k = cc
environment_of-IsEnvironment m root (c ∷ credentials) [] entries h k = cc
environment_of-IsEnvironment m root (c ∷ credentials) (value ∷ values) [] h k =
    let (named, a) = guard-eq-ok (not (is_empty c.inject.stdio_env)) other _ k in
    let (rest, b, d) = >>=-eq-ok (environment_of credentials values) _ a in cc
environment_of-IsEnvironment m root (c ∷ credentials) (value ∷ values) (entry ∷ entries) h k =
    let (v, e, f) = >>=-eq-ok (value_of m root c.sources) _ h in
    let (vs, g, l) = >>=-eq-ok (values_loop m root credentials) _ f in
    let (named, a) = guard-eq-ok (not (is_empty c.inject.stdio_env)) other _ k in
    let (rest, b, d) = >>=-eq-ok (environment_of credentials values) _ a in
    let same_value : v ≡ value = cc in
    let same_values : vs ≡ values = cc in
    let same_rest : rest ≡ entries = cc in
    let same_entry : c.inject.stdio_env ++ 0x3d ∷ value ≡ entry = cc in
    (
      (v, value_of-ok m root c.sources e, ground arith, cc),
      environment_of-IsEnvironment m root credentials values entries (rw same_values at g)
          (rw same_rest at b),
    )

pub profile_for-ok :
    (c : Config) (selected : Capability) {p : CredentialProfile}
    → profile_for c selected ≡ ok p
    → (find_profile selected.auth_profile c.credential_profiles ≡ some p)
      × (p.service ≡ selected.server.identity.canonical_name)
unfolding profile_for
profile_for-ok c selected {p} h =
    let (found, e, k) =
      >>=-eq-ok (need profile_untrusted (find_profile selected.auth_profile c.credential_profiles))
        _ h in
    let (served, l) =
      guard-eq-ok (text_eq found.service selected.server.identity.canonical_name) profile_untrusted
        _ k in
    let same : found ≡ p = cc in
    (
      need-ok profile_untrusted (find_profile selected.auth_profile c.credential_profiles) e
          ∙ ap some same,
      sym (ap (λ (q : CredentialProfile). q.service) same)
          ∙ (text_eq_iff found.service selected.server.identity.canonical_name).0 served,
    )

-- What the profile of a capability must be, if it has one.
abbrev pub IsApproved : Config → Capability → TrustedServer → Type 0
IsApproved c selected s =
    (is_empty selected.auth_profile ≡ true)
    ⊎ ((p : CredentialProfile) × (elem selected.auth_profile s.auth_profiles ≡ true)
        × (find_profile selected.auth_profile c.credential_profiles ≡ some p)
        × Within p c.credential_profiles
        × (p.name ≡ selected.auth_profile)
        × (p.service ≡ selected.server.identity.canonical_name))

credential_values-ok :
    (m : Machine) (c : Config) (selected : Capability) (root : Text) (s : TrustedServer)
    (values : List Text)
    → server_of c selected ≡ some s
    → credential_values m c selected root ≡ ok values
    → IsApproved c selected s
      × ((values ≡ [])
          ⊎ (values_loop m root
                (credentials_of (find_profile selected.auth_profile c.credential_profiles))
              ≡ ok values))
unfolding credential_values
credential_values-ok m c selected root s values served h =
    elim (Bool-cases (is_empty selected.auth_profile)) [
      | inl e ↦ let k : ok [] ≡ ok values = rw e at h in (inl e, inl (cc))
      | inr e ↦
          let k = rw e at h in
          let (t, a, b) = >>=-eq-ok (need profile_untrusted (server_of c selected)) _ k in
          let (listed, d) =
            guard-eq-ok (elem selected.auth_profile t.auth_profiles) profile_untrusted _ b in
          let (p, f, g) = >>=-eq-ok (profile_for c selected) _ d in
          let (found, service) = profile_for-ok c selected f in
          let same : t ≡ s = cc (need-ok profile_untrusted (server_of c selected) a) in
          let (named, within) =
            find_profile_sound selected.auth_profile c.credential_profiles found in
          (inr (p, rw same at listed, found, within, named, service), inr (rw found g))
    ]

environment_of-no_values :
    (m : Machine) (root : Text) (credentials : List Credential) (entries : List Text)
    → environment_of credentials [] ≡ ok entries
    → IsEnvironment m root credentials entries
unfolding environment_of
environment_of-no_values m root [] [] h = tt
environment_of-no_values m root [] (entry ∷ entries) h = cc
environment_of-no_values m root (c ∷ credentials) entries h = cc

IsEnvironment-from :
    (m : Machine) (root : Text) (credentials : List Credential) (values entries : List Text)
    → (values ≡ []) ⊎ (values_loop m root credentials ≡ ok values)
    → environment_of credentials values ≡ ok entries
    → IsEnvironment m root credentials entries
IsEnvironment-from m root credentials values entries (inl e) h =
    environment_of-no_values m root credentials entries (rw e at h)
IsEnvironment-from m root credentials values entries (inr resolved) h =
    environment_of-IsEnvironment m root credentials values entries resolved h

-- StdioConfig describes a process only for a configured server of exactly the name and version of the
-- capability, in a project that the server allows, and with no profile or one that the server lists
-- and that is configured under that name for it. The command and its arguments are those of the
-- configuration, and the environment has one variable for each credential of the profile, with the
-- value of its sources, and nothing else.
pub stdio_config_sound :
    (m : Machine) (c : Config) (selected : Capability) (root : Text) {launch : Launch}
    → stdio_config m c selected root ≡ ok launch
    → (s : TrustedServer) × (stdio : StdioConfig) × (server_of c selected ≡ some s)
      × Within s c.servers
      × (s.server ≡ selected.server.identity.canonical_name)
      × (s.version ≡ selected.server.version)
      × IsAllowed m.files s.allowed_projects root
      × IsApproved c selected s
      × (s.stdio ≡ some stdio)
      × (launch.canonical_name ≡ s.server)
      × (launch.version ≡ s.version)
      × (launch.command ≡ stdio.command)
      × (launch.args ≡ stdio.args)
      × IsEnvironment m root
          (credentials_of (find_profile selected.auth_profile c.credential_profiles))
          launch.environment
unfolding stdio_config
stdio_config_sound m c selected root {launch} h =
    let profile = find_profile selected.auth_profile c.credential_profiles in
    let (s, e1, k1) = >>=-eq-ok (need server_untrusted (server_of c selected)) _ h in
    let (allowed, k2) = guard-eq-ok (project_allowed m.files s root) project_untrusted _ k1 in
    let (values, e3, k3) = >>=-eq-ok (credential_values m c selected root) _ k2 in
    let (stdio, e4, k4) = >>=-eq-ok (need other s.stdio) _ k3 in
    let (no_oauth, k5) = guard-eq-ok (not (has_oauth profile)) other _ k4 in
    let (environment, e6, k6) = >>=-eq-ok (environment_of (credentials_of profile) values) _ k5 in
    let (directory, e7, k7) =
      >>=-eq-ok (of_source (expand_project_path m.files stdio.directory root false)) _ k6 in
    let served = need-ok server_untrusted (server_of c selected) e1 in
    let (approved, source) = credential_values-ok m c selected root s values served e3 in
    let (named, exact, within) =
      find_server_sound selected.server.identity.canonical_name selected.server.version c.servers
        served in
    let name : selected.server.identity.canonical_name ≡ launch.canonical_name = ground arith in
    let version : selected.server.version ≡ launch.version = ground arith in
    let command : stdio.command ≡ launch.command = ground arith in
    let args : stdio.args ≡ launch.args = ground arith in
    let same : environment ≡ launch.environment = ground arith in
    (
      s,
      stdio,
      served,
      within,
      named,
      exact,
      project_allowed_sound m.files s root allowed,
      approved,
      need-ok other s.stdio e4,
      sym name ∙ sym named,
      sym version ∙ sym exact,
      sym command,
      sym args,
      rw (← same) (IsEnvironment-from m root (credentials_of profile) values environment source e6),
    )
