-- ===== src/Trust/Launch/Hindrance.antt =====
-- Why StdioConfig of internal/trust/config.go fails for a capability whose server, project and
-- credentials are there.
use skillex.Prelude.{
  ◌≡◌, refl, sym, ap, ◌∙◌, ◌⊎◌, inl, inr, suc, Bool, true, false, not, Option, none, some, List, [],
  ◌∷◌, ◌++◌, Text, is_empty, text_eq, elem, any, length, Result, ok, err, ◌>>=◌, guard, >>=-eq-ok,
  guard-eq-ok, All, Option-cases, Bool-cases, Result-cases, arith,
}
use skillex.Errors.{Error, server_untrusted, project_untrusted, profile_untrusted, other}
use skillex.Capability.Model.{Capability}
use skillex.Trust.Types.{
  Credential, CredentialProfile, StdioConfig, TrustedServer, Config, FilePaths,
}
use skillex.Trust.Validate.{find_profile}
use skillex.Trust.Validate.Profiles.{IsUsable}
use skillex.Trust.Sources.{Machine, SourceError, expand_project_path}
use skillex.Trust.Launch.{
  Launch, of_source, need, value_of, project_allowed, values_loop, server_of, profile_for,
  credential_values, environment_of, credentials_of, has_oauth, stdio_config,
}
use skillex.Trust.Launch.Configured.{find_profile_sound}
use skillex.Trust.Launch.Environment.{profile_for-ok}

pub find_profile-IsUsable :
    (files : FilePaths) (name : Text) (profiles : List CredentialProfile) {p : CredentialProfile}
    → All (IsUsable files) profiles
    → find_profile name profiles ≡ some p
    → IsUsable files p
unfolding find_profile
find_profile-IsUsable files name [] sound h = cc
find_profile-IsUsable files name (q ∷ profiles) {p} sound h =
    elim (Bool-cases (text_eq q.name name)) [
      | inl same ↦ let e : q ≡ p = ground arith in rw (← e) sound.0
      | inr differs ↦
          let e : find_profile name profiles ≡ some p = ground arith in
          find_profile-IsUsable files name profiles sound.1 e
    ]

length-values_loop :
    (m : Machine) (root : Text) (credentials : List Credential) {values : List Text}
    → values_loop m root credentials ≡ ok values
    → length values ≡ length credentials
unfolding values_loop
length-values_loop m root [] h = ground arith
length-values_loop m root (c ∷ credentials) {values} h =
    let (v, e, f) = >>=-eq-ok (value_of m root c.sources) _ h in
    let (vs, g, k) = >>=-eq-ok (values_loop m root credentials) _ f in
    let split : v ∷ vs ≡ values = ground arith in
    ap length (sym split) ∙ ap suc (length-values_loop m root credentials g)

-- No configured profile has an empty name.
find_profile-empty :
    (files : FilePaths) (name : Text) (profiles : List CredentialProfile)
    → All (IsUsable files) profiles
    → is_empty name ≡ true
    → find_profile name profiles ≡ none
find_profile-empty files name profiles sound empty =
    elim (Option-cases (find_profile name profiles)) [
      | inl e ↦ e
      | inr (p, found) ↦
          let usable = find_profile-IsUsable files name profiles sound found in
          let same = ap (λ n. is_empty n) (find_profile_sound name profiles found).0 in
          absurd (ground (arith, usable.0, same, empty))
    ]

-- There is a value for each credential of the profile.
length-credential_values :
    (m : Machine) (c : Config) (selected : Capability) (root : Text) {values : List Text}
    → All (IsUsable m.files) c.credential_profiles
    → credential_values m c selected root ≡ ok values
    → length values
      ≡ length (credentials_of (find_profile selected.auth_profile c.credential_profiles))
unfolding credential_values
length-credential_values m c selected root {values} sound h =
    elim (Bool-cases (is_empty selected.auth_profile)) [
      | inl e ↦
          let k : ok [] ≡ ok values = rw (credential_values, e) at h in
          rw (find_profile-empty m.files selected.auth_profile c.credential_profiles sound e)
            (ground arith)
      | inr e ↦
          let k = rw (credential_values, e) at h in
          let (t, a, b) = >>=-eq-ok (need profile_untrusted (server_of c selected)) _ k in
          let (listed, d) =
            guard-eq-ok (elem selected.auth_profile t.auth_profiles) profile_untrusted _ b in
          let (p, f, g) = >>=-eq-ok (profile_for c selected) _ d in
          rw (profile_for-ok c selected f).0 (length-values_loop m root p.credentials g)
    ]

abbrev is_unnamed : Credential → Bool
is_unnamed c = is_empty c.inject.stdio_env

environment_of_total :
    (credentials : List Credential) (values : List Text)
    → length values ≡ length credentials
    → any is_unnamed credentials ≡ false
    → (environment : List Text) × (environment_of credentials values ≡ ok environment)
unfolding environment_of
environment_of_total [] values same named = ([], refl)
environment_of_total (c ∷ credentials) [] same named = absurd (omega arith)
environment_of_total (c ∷ credentials) (value ∷ values) same named =
    let here : is_empty c.inject.stdio_env ≡ false = ground arith in
    let (rest, e) = environment_of_total credentials values (omega arith) (ground arith) in
    ((c.inject.stdio_env ++ 0x3d ∷ value) ∷ rest, rw (environment_of, here, e) refl)

after_ok :
    {A B : Type 0} (r : Result Error A) (f : A → Result Error B) {a : A} {b : B}
    → r ≡ ok a
    → f a ≡ ok b
    → (r >>= f) ≡ ok b
after_ok r f e k = rw e k

stdio_config_starts :
    (m : Machine) (c : Config) (selected : Capability) (root : Text) (s : TrustedServer)
    (values : List Text) (stdio : StdioConfig) (environment : List Text) (directory : Text)
    → server_of c selected ≡ some s
    → project_allowed m.files s root ≡ true
    → credential_values m c selected root ≡ ok values
    → s.stdio ≡ some stdio
    → has_oauth (find_profile selected.auth_profile c.credential_profiles) ≡ false
    → environment_of
        (credentials_of (find_profile selected.auth_profile c.credential_profiles))
        values
      ≡ ok environment
    → expand_project_path m.files stdio.directory root false ≡ ok directory
    → (launch : Launch) × (stdio_config m c selected root ≡ ok launch)
unfolding stdio_config
stdio_config_starts m c selected root s values stdio environment directory served allowed given
      found no_oauth variables expanded =
    (
      record {
        canonical_name = selected.server.identity.canonical_name;
        version = selected.server.version;
        command = stdio.command;
        args = stdio.args;
        directory = directory;
        environment = environment;
        startup_timeout_ms = stdio.startup_timeout_ms;
      },
      after_ok (need server_untrusted (server_of c selected)) _ (ap (need server_untrusted) served)
          (after_ok (guard (project_allowed m.files s root) project_untrusted) _
            (ap (λ b. guard b project_untrusted) allowed)
            (after_ok (credential_values m c selected root) _ given (
              after_ok (need other s.stdio) _ (ap (need other) found) (
                after_ok
                  (guard
                    (not (has_oauth (find_profile selected.auth_profile c.credential_profiles)))
                    other)
                  _ (ap (λ b. guard (not b) other) no_oauth)
                  (after_ok
                    (environment_of
                      (credentials_of (find_profile selected.auth_profile c.credential_profiles))
                      values)
                    _ variables
                    (after_ok (of_source (expand_project_path m.files stdio.directory root false)) _
                      (ap of_source expanded) refl)))))),
    )

-- Why a ready capability may have no process: its server is not started as one, its profile logs in by
-- OAuth, a credential goes to a header only, or the directory cannot be found in the project.
abbrev pub Hinders : Machine → Text → TrustedServer → Option CredentialProfile → Type 0
Hinders m root s profile =
    (s.stdio ≡ none)
    ⊎ (has_oauth profile ≡ true)
    ⊎ (any is_unnamed (credentials_of profile) ≡ true)
    ⊎ ((stdio : StdioConfig) × (failure : SourceError) × (s.stdio ≡ some stdio)
        × (expand_project_path m.files stdio.directory root false ≡ err failure))

pub stdio_config-Hinders :
    (m : Machine) (c : Config) (selected : Capability) (root : Text) (s : TrustedServer)
    (values : List Text) (e : Error)
    → All (IsUsable m.files) c.credential_profiles
    → server_of c selected ≡ some s
    → project_allowed m.files s root ≡ true
    → credential_values m c selected root ≡ ok values
    → stdio_config m c selected root ≡ err e
    → Hinders m root s (find_profile selected.auth_profile c.credential_profiles)
stdio_config-Hinders m c selected root s values e sound served allowed given h =
    let profile = find_profile selected.auth_profile c.credential_profiles in
    elim (Option-cases s.stdio) [
      | inl missing ↦ inl missing
      | inr (stdio, found) ↦ elim (Bool-cases (has_oauth profile)) [
        | inl oauth ↦ inr (inl oauth)
        | inr no_oauth ↦ elim (Bool-cases (any is_unnamed (credentials_of profile))) [
          | inl unnamed ↦ inr (inr (inl unnamed))
          | inr named ↦
              elim (Result-cases (expand_project_path m.files stdio.directory root false)) [
                | inr (failure, failed) ↦ inr (inr (inr (stdio, failure, found, failed)))
                | inl (directory, expanded) ↦
                    let (environment, variables) =
                      environment_of_total (credentials_of profile) values
                        (length-credential_values m c selected root sound given) named in
                    let (launch, started) =
                      stdio_config_starts m c selected root s values stdio environment directory
                        served allowed given found no_oauth variables expanded in
                    let clash : ok launch ≡ err e = sym started ∙ h in cc
              ]
        ]
      ]
    ]
