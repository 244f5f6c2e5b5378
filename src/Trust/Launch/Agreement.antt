-- ===== src/Trust/Launch/Agreement.antt =====
-- Ready and StdioConfig of internal/trust/config.go side by side.
use skillex.Prelude.{
  ◌≡◌, ◌≢◌, refl, elem, ap, ◌∙◌, Bool, true, false, not, Option, none, some, List, [], ◌∷◌, Text,
  is_empty, text_eq, Result, ok, err, ◌>>=◌, guard, >>=-eq-ok, ne_of_text_eq, All, Option-cases,
  Bool-cases, Result-cases, inl, inr, arith,
}
use skillex.Errors.{
  Error, credential_missing, login_required, server_untrusted, project_untrusted, other,
}
use skillex.Capability.Availability
use skillex.Capability.Model.{Capability}
use skillex.Trust.Types.{Credential, CredentialProfile, TrustedServer, Config, FilePaths}
use skillex.Trust.Endpoint.{ParsedUrl}
use skillex.Trust.Checks.{passed, is_set, is_none_given}
use skillex.Trust.Validate.{find_profile, validate}
use skillex.Trust.Validate.Profiles.{IsUsable}
use skillex.Trust.Validate.Sound.{validate_sound}
use skillex.Trust.Sources.{Machine, SourceError, expand_project_path}
use skillex.Trust.Launch.{
  of_source, need, project_allowed, values_loop, server_of, profile_for, credential_values,
  credentials_present, availability_of, mtls_present, profile_ready, server_ready, ready,
  environment_of, credentials_of, has_oauth, stdio_config,
}
use skillex.Trust.Launch.Environment.{profile_for-ok}
use skillex.Trust.Launch.Hindrance.{find_profile-IsUsable, Hinders, stdio_config-Hinders}

setup_ne : Availability.setup_required ≢ Availability.ready
setup_ne = ne_of_text_eq Availability.setup_required Availability.ready (unfold text_eq in refl)

missing_ne : Availability.credential_missing ≢ Availability.ready
missing_ne =
    ne_of_text_eq Availability.credential_missing Availability.ready (unfold text_eq in refl)

login_ne : Availability.login_required ≢ Availability.ready
login_ne = ne_of_text_eq Availability.login_required Availability.ready (unfold text_eq in refl)

denied_ne : Availability.policy_denied ≢ Availability.ready
denied_ne = ne_of_text_eq Availability.policy_denied Availability.ready (unfold text_eq in refl)

availability_of-ready :
    (r : Result Error (Unit {0})) → availability_of r ≡ Availability.ready → r ≡ ok tt
availability_of-ready (ok t) h = refl
availability_of-ready (err credential_missing) h = absurd (missing_ne h)
availability_of-ready (err login_required) h = absurd (login_ne h)
availability_of-ready (err e) h = absurd (setup_ne h)

nil_of : {A : Type 0} (xs : List A) → is_none_given xs ≡ true → xs ≡ []
nil_of [] h = refl
nil_of (x ∷ xs) h = absurd (ground arith)

no_credentials :
    (files : FilePaths) (p : CredentialProfile)
    → IsUsable files p
    → is_set p.oauth ≡ true
    → p.credentials ≡ []
no_credentials files p sound o = nil_of p.credentials (ground arith)

credential_values-listed :
    (m : Machine) (c : Config) (selected : Capability) (root : Text) (s : TrustedServer)
    (p : CredentialProfile)
    → server_of c selected ≡ some s
    → is_empty selected.auth_profile ≡ false
    → elem selected.auth_profile s.auth_profiles ≡ true
    → profile_for c selected ≡ ok p
    → credential_values m c selected root ≡ values_loop m root p.credentials
unfolding credential_values
credential_values-listed m c selected root s p served named listed found =
    rw (credential_values, named, served, listed, found) refl

profile_ready-values :
    (m : Machine) (c : Config) (selected : Capability) (root : Text) (s : TrustedServer)
    → All (IsUsable m.files) c.credential_profiles
    → server_of c selected ≡ some s
    → profile_ready m c s selected root ≡ Availability.ready
    → (values : List Text) × (credential_values m c selected root ≡ ok values)
unfolding profile_ready credential_values credentials_present
profile_ready-values m c selected root s sound served h =
    elim (Bool-cases (is_empty selected.auth_profile)) [
      | inl e ↦ ([], rw (credential_values, e) refl)
      | inr named ↦ elim (Bool-cases (elem selected.auth_profile s.auth_profiles)) [
        | inr unlisted ↦ absurd (denied_ne (rw (named, unlisted) at h))
        | inl listed ↦
            let k =
              availability_of-ready (credentials_present m c selected root)
                (rw (named, listed) at h) in
            let (p, found, g) = >>=-eq-ok (profile_for c selected) _ k in
            elim (Option-cases p.oauth) [
              | inl none_set ↦
                  let (values, e, f) =
                    >>=-eq-ok (credential_values m c selected root) _ (rw none_set at g) in
                  (values, e)
              | inr (o, set) ↦
                  let is_sound =
                    find_profile-IsUsable m.files selected.auth_profile c.credential_profiles sound
                      (profile_for-ok c selected found).0 in
                  (
                    [],
                    credential_values-listed m c selected root s p served named listed found
                        ∙ ap (values_loop m root) (no_credentials m.files p is_sound (rw set refl))
                        ∙ (unfold values_loop in refl),
                  )
            ]
      ]
    ]

-- A result whose error is none of the sentinels.
abbrev OnlyOther : {A : Type 0} → Result Error A → Type 0
OnlyOther (ok a) = Unit
OnlyOther (err e) = e ≡ other

OnlyOther-err : {A : Type 0} (r : Result Error A) {e : Error} → OnlyOther r → r ≡ err e → e ≡ other
OnlyOther-err (ok a) o h = cc
OnlyOther-err (err e) o h = cc

other_bind :
    {A B : Type 0} (r : Result Error A) (f : A → Result Error B)
    → OnlyOther r
    → ((a : A) → OnlyOther (f a))
    → OnlyOther (r >>= f)
other_bind (ok a) f first rest = rest a
other_bind (err e) f first rest = first

other_after :
    {A B : Type 0} (r : Result Error A) (f : A → Result Error B) {a : A}
    → r ≡ ok a
    → OnlyOther (f a)
    → OnlyOther (r >>= f)
other_after r f e rest = rw e rest

other_need : {A : Type 0} (o : Option A) → OnlyOther (need other o)
other_need none = refl
other_need (some a) = tt

other_guard : (b : Bool) → OnlyOther (guard b other)
other_guard true = tt
other_guard false = refl

other_source : {A : Type 0} (r : Result SourceError A) → OnlyOther (of_source r)
other_source (ok a) = tt
other_source (err e) = refl

other_environment :
    (credentials : List Credential) (values : List Text)
    → OnlyOther (environment_of credentials values)
unfolding environment_of
other_environment [] values = tt
other_environment (c ∷ credentials) [] = refl
other_environment (c ∷ credentials) (value ∷ values) =
    other_bind (guard (not (is_empty c.inject.stdio_env)) other) _
      (other_guard (not (is_empty c.inject.stdio_env)))
      (λ t.
        other_bind (environment_of credentials values) _ (other_environment credentials values)
          (λ rest. tt))

ready-values :
    (m : Machine) (c : Config) (selected : Capability) (root : Text)
    → All (IsUsable m.files) c.credential_profiles
    → ready m c selected root ≡ Availability.ready
    → (s : TrustedServer) × (values : List Text) × (server_of c selected ≡ some s)
      × (project_allowed m.files s root ≡ true)
      × (credential_values m c selected root ≡ ok values)
unfolding ready server_ready
ready-values m c selected root sound h = elim (Option-cases (server_of c selected)) [
  | inl e ↦ absurd (setup_ne (rw (e, ready) at h))
  | inr (s, served) ↦ elim (Bool-cases (project_allowed m.files s root)) [
    | inr refused ↦ absurd (setup_ne (rw (served, ready, refused) at h))
    | inl allowed ↦ elim (Result-cases (mtls_present m root s.http)) [
      | inl (t, e) ↦
          let k : profile_ready m c s selected root ≡ Availability.ready =
            rw (served, ready, allowed, e) at h in
          let (values, v) = profile_ready-values m c selected root s sound served k in
          (s, values, served, allowed, v)
      | inr (e, f) ↦
          let k : availability_of (err e) ≡ Availability.ready =
            rw (served, ready, allowed, f) at h in
          let l = availability_of-ready (err e) k in cc
    ]
  ]
]

stdio_config_rest :
    (m : Machine) (c : Config) (selected : Capability) (root : Text) (s : TrustedServer)
    (values : List Text)
    → server_of c selected ≡ some s
    → project_allowed m.files s root ≡ true
    → credential_values m c selected root ≡ ok values
    → OnlyOther (stdio_config m c selected root)
unfolding stdio_config
stdio_config_rest m c selected root s values served allowed given =
    let profile = find_profile selected.auth_profile c.credential_profiles in
    other_after (need server_untrusted (server_of c selected)) _ (ap (need server_untrusted) served)
      (other_after (guard (project_allowed m.files s root) project_untrusted) _
        (ap (λ b. guard b project_untrusted) allowed)
        (other_after (credential_values m c selected root) _ given (
          other_bind (need other s.stdio) _ (other_need s.stdio) (λ stdio.
            other_bind (guard (not (has_oauth profile)) other) _
              (other_guard (not (has_oauth profile)))
              (λ t.
                other_bind (environment_of (credentials_of profile) values) _
                  (other_environment (credentials_of profile) values)
                  (λ environment.
                    other_bind (of_source (expand_project_path m.files stdio.directory root false))
                      _ (other_source (expand_project_path m.files stdio.directory root false))
                      (λ directory. tt)))))))

-- For a capability that Ready calls ready in a configuration that Validate lets through, the server is
-- configured, the project is allowed and every credential has a value. Where StdioConfig fails all the
-- same, it is because the server is not started as a process, the profile logs in by OAuth, a
-- credential goes to no variable or the directory cannot be found in the project; and the error is
-- none of the sentinels.
pub stdio_config-ready :
    (m : Machine) (parse_url : Text → Option ParsedUrl) (c : Config) (selected : Capability)
    (root : Text) (e : Error)
    → validate m.files parse_url c ≡ passed
    → ready m c selected root ≡ Availability.ready
    → stdio_config m c selected root ≡ err e
    → (s : TrustedServer) × (values : List Text) × (server_of c selected ≡ some s)
      × (project_allowed m.files s root ≡ true)
      × (credential_values m c selected root ≡ ok values)
      × Hinders m root s (find_profile selected.auth_profile c.credential_profiles)
      × (e ≡ other)
stdio_config-ready m parse_url c selected root e valid is_ready h =
    let (trusted, keys, sound, names, known) = validate_sound m.files parse_url c valid in
    let (s, values, served, allowed, given) = ready-values m c selected root sound is_ready in
    (
      s,
      values,
      served,
      allowed,
      given,
      stdio_config-Hinders m c selected root s values e sound served allowed given h,
      OnlyOther-err (stdio_config m c selected root)
          (stdio_config_rest m c selected root s values served allowed given) h,
    )
