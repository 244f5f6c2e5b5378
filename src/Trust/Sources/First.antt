-- ===== src/Trust/Sources/First.antt =====
-- In which order internal/trust/config.go asks the sources of a credential.
use skillex.Prelude.{
  ◌≡◌, ◌≢◌, refl, ap, ◌∙◌, ◌⊎◌, inl, inr, Option, none, some, List, [], ◌∷◌, ◌++◌, Text, All,
  Result, ok, Result-cases, Option-cases,
}
use skillex.Trust.Types.{CredentialSource}
use skillex.Trust.Sources.{Machine, SourceError, resolve_source, ask_sources, resolve_sources}

-- The source that decides: those before it have no value, and it has one or fails. It is the last that
-- is asked.
abbrev pub Decides :
    Machine
    → Text
    → List CredentialSource
    → List CredentialSource
    → Result SourceError (Option Text)
    → Type 0
Decides m root sources asked result =
    (before after : List CredentialSource) × (s : CredentialSource) × (sources
      ≡ before ++ s ∷ after)
    × (asked ≡ before ++ s ∷ [])
    × All (λ b. resolve_source m root b ≡ ok none) before
    × (resolve_source m root s ≡ result)

Decides-later :
    (m : Machine) (root : Text) (s : CredentialSource) (sources asked : List CredentialSource)
    (r : Result SourceError (Option Text))
    → resolve_source m root s ≡ ok none
    → Decides m root sources asked r
    → Decides m root (s ∷ sources) (s ∷ asked) r
Decides-later m root s sources asked r e (before, after, t, split, last, absent, result) = (
  s ∷ before,
  after,
  t,
  ap (λ rest. s ∷ rest) split,
  ap (λ rest. s ∷ rest) last,
  (e, absent),
  result,
)

-- A source without a value is passed over.
ask_sources-next :
    (m : Machine) (root : Text) (s : CredentialSource) (sources : List CredentialSource)
    → resolve_source m root s ≡ ok none
    → ask_sources m root (s ∷ sources)
      ≡ (s ∷ (ask_sources m root sources).0, (ask_sources m root sources).1)
unfolding ask_sources
ask_sources-next m root s sources e = rw (ask_sources, e) refl

ask_sources_first :
    (m : Machine) (root : Text) (sources : List CredentialSource)
    → (((ask_sources m root sources).0 ≡ sources)
        × ((ask_sources m root sources).1 ≡ ok none)
        × All (λ s. resolve_source m root s ≡ ok none) sources)
      ⊎ (((ask_sources m root sources).1 ≢ ok none)
          × Decides m root sources (ask_sources m root sources).0 (ask_sources m root sources).1)
unfolding ask_sources
ask_sources_first m root [] = inl (refl, refl, tt)
ask_sources_first m root (s ∷ sources) = elim (Result-cases (resolve_source m root s)) [
  | inr (e, failed) ↦
      rw (ask_sources, failed) (inr ((λ h. cc), ([], sources, s, refl, refl, tt, failed)))
  | inl (o, found) ↦ elim (Option-cases o) [
    | inr (v, present) ↦
        let here : resolve_source m root s ≡ ok (some v) = found ∙ ap ok present in
        rw (ask_sources, here) (inr ((λ h. cc), ([], sources, s, refl, refl, tt, here)))
    | inl absent ↦
        let here : resolve_source m root s ≡ ok none = found ∙ ap ok absent in
        rw (ask_sources-next m root s sources here) (elim (ask_sources_first m root sources) [
          | inl (asked, nothing, all) ↦ inl (ap (λ rest. s ∷ rest) asked, nothing, (here, all))
          | inr (something, decided) ↦
              inr (something, Decides-later m root s sources _ _ here decided)
        ])
  ]
]

-- The sources are asked in their order: either none of them has a value, all are asked and the
-- credential is absent, or the result is that of the first source that has a value or fails, and no
-- later one is asked.
pub resolve_sources_first :
    (m : Machine) (root : Text) (sources : List CredentialSource)
    → (((ask_sources m root sources).0 ≡ sources)
        × (resolve_sources m root sources ≡ ok none)
        × All (λ s. resolve_source m root s ≡ ok none) sources)
      ⊎ ((resolve_sources m root sources ≢ ok none)
          × Decides m root sources (ask_sources m root sources).0 (resolve_sources m root sources))
unfolding resolve_sources
resolve_sources_first m root sources = ask_sources_first m root sources
