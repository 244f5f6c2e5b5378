-- ===== src/Trust/Launch/Configured.antt =====
-- What FindServer, FindProfile and projectAllowed of internal/trust/config.go find in a configuration.
use skillex.Prelude.{
  ◌≡◌, refl, ap, ◌∙◌, sym, ◌⊎◌, inl, inr, true, ◌&&◌, ◌||◌, some, List, [], ◌∷◌, ◌++◌, Text,
  text_eq, text_eq_iff, any, Bool-cases, arith,
}
use skillex.Trust.Types.{CredentialProfile, TrustedServer, FilePaths}
use skillex.Trust.Validate.{find_profile, find_server}
use skillex.Trust.Sources.{root_variable}
use skillex.Trust.Launch.{project_allowed}

-- The item stands somewhere in the list.
abbrev pub Within {ℓ} : {A : Type ℓ} → A → List A → Type ℓ
Within {A} x xs = (before : List A) × (after : List A) × (xs ≡ before ++ x ∷ after)

Within-cons {ℓ} : {A : Type ℓ} (y x : A) (xs : List A) → Within x xs → Within x (y ∷ xs)
Within-cons y x xs (before, after, e) = (y ∷ before, after, ap (λ l. y ∷ l) e)

-- FindServer gives a configured server of exactly that name and version.
pub find_server_sound :
    (name version : Text) (servers : List TrustedServer) {s : TrustedServer}
    → find_server name version servers ≡ some s
    → (s.server ≡ name) × (s.version ≡ version) × Within s servers
unfolding find_server
find_server_sound name version [] h = cc
find_server_sound name version (t ∷ servers) {s} h =
    elim (Bool-cases (text_eq t.server name && text_eq t.version version)) [
      | inl same ↦
          let e : t ≡ s = ground arith in
          (
            ap (λ (q : TrustedServer). q.server) (sym e)
                ∙ (text_eq_iff t.server name).0 (ground arith),
            ap (λ (q : TrustedServer). q.version) (sym e)
                ∙ (text_eq_iff t.version version).0 (ground arith),
            ([], servers, ap (λ q. q ∷ servers) e),
          )
      | inr differs ↦
          let rest : find_server name version servers ≡ some s = ground arith in
          let (named, exact, within) = find_server_sound name version servers rest in
          (named, exact, Within-cons t s servers within)
    ]

-- FindProfile gives a configured profile of that name.
pub find_profile_sound :
    (name : Text) (profiles : List CredentialProfile) {p : CredentialProfile}
    → find_profile name profiles ≡ some p
    → (p.name ≡ name) × Within p profiles
unfolding find_profile
find_profile_sound name [] h = cc
find_profile_sound name (q ∷ profiles) {p} h = elim (Bool-cases (text_eq q.name name)) [
  | inl same ↦
      let e : q ≡ p = ground arith in
      (
        ap (λ (q : CredentialProfile). q.name) (sym e) ∙ (text_eq_iff q.name name).0 same,
        ([], profiles, ap (λ q. q ∷ profiles) e),
      )
  | inr differs ↦
      let rest : find_profile name profiles ≡ some p = ground arith in
      let (named, within) = find_profile_sound name profiles rest in
      (named, Within-cons q p profiles within)
]

-- One of the projects is the variable that allows every project, or is the project.
abbrev pub IsAllowed : FilePaths → List Text → Text → Type 0
IsAllowed files projects root =
    (allowed : Text) × Within allowed projects
    × ((allowed ≡ root_variable) ⊎ (files.clean (files.abs allowed) ≡ files.clean (files.abs root)))

IsAllowed-tail :
    (files : FilePaths) (p : Text) (projects : List Text) (root : Text)
    → IsAllowed files projects root
    → IsAllowed files (p ∷ projects) root
IsAllowed-tail files p projects root (allowed, within, why) =
    (allowed, Within-cons p allowed projects within, why)

IsAllowed-any :
    (files : FilePaths) (projects : List Text) (root : Text)
    → any
        (λ allowed.
          text_eq allowed root_variable
          || text_eq (files.clean (files.abs allowed)) (files.clean (files.abs root)))
        projects
      ≡ true
    → IsAllowed files projects root
IsAllowed-any files [] root h = cc
IsAllowed-any files (p ∷ projects) root h = elim (Bool-cases (text_eq p root_variable)) [
  | inl e ↦ (p, ([], projects, refl), inl ((text_eq_iff p root_variable).0 e))
  | inr e ↦ elim (Bool-cases (text_eq (files.clean (files.abs p)) (files.clean (files.abs root)))) [
    | inl f ↦ (
      p,
      ([], projects, refl),
      inr ((text_eq_iff (files.clean (files.abs p)) (files.clean (files.abs root))).0 f),
    )
    | inr f ↦
        IsAllowed-tail files p projects root (IsAllowed-any files projects root (ground arith))
  ]
]

pub project_allowed_sound :
    (files : FilePaths) (s : TrustedServer) (root : Text)
    → project_allowed files s root ≡ true
    → IsAllowed files s.allowed_projects root
unfolding project_allowed
project_allowed_sound files s root h = IsAllowed-any files s.allowed_projects root h
