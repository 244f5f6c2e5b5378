-- ===== src/Linker/Once.antt =====
-- How often Link of internal/linker/linker.go lists a path, and what it keeps of a list of scopes.
use skillex.Prelude.{
  ℕ, suc, ◌+◌, ◌≡◌, ◌⊎◌, refl, sym, ◌∙◌, ap, Bool, true, false, ◌&&◌, ◌||◌, not, Option, none, some,
  List, [], ◌∷◌, ◌++◌, Text, text_eq, text_eq_iff, text_eq_refl, elem, if◌then◌else◌, arith,
  Bool-cases, inl, inr,
}
use skillex.Linker.{
  SkillFile, LinkedSkill, Paths, Rule, listed, put, repo_loop, merged_dep, collect_deps, emit_deps,
  link, resolve_repo_skill_scopes, resolve_dep_skill_scopes, no_entries,
}

-- How many linked skills have a path.
unfoldable pub count_path : Text → List LinkedSkill → ℕ
count_path path [] = 0
count_path path (ls ∷ linked) =
    let rest = count_path path linked in if text_eq ls.file.rel_path path then suc rest else rest

count_path-append :
    (path : Text) (xs ys : List LinkedSkill)
    → count_path path (xs ++ ys) ≡ count_path path xs + count_path path ys
unfolding count_path
count_path-append path [] ys = omega arith
count_path-append path (ls ∷ xs) ys = ground (arith, count_path-append path xs ys)

abbrev pub one_if : Bool → ℕ
one_if b = if b then 1 else 0

pub count_path-repo_loop :
    (scopes : Text → List Text) (path : Text) (skills : List SkillFile) (seen : List Text)
    → count_path path (repo_loop scopes skills seen)
      ≡ one_if (not (elem path seen) && listed skills path)
unfolding count_path repo_loop elem
count_path-repo_loop scopes path [] seen = ground arith
count_path-repo_loop scopes path (sf ∷ skills) seen = elim (Bool-cases (text_eq sf.rel_path path)) [
  | inl same ↦
      let e : sf.rel_path ≡ path = (text_eq_iff sf.rel_path path).0 same in
      ground (
        arith,
        e,
        same,
        text_eq_refl path,
        count_path-repo_loop scopes path skills seen,
        count_path-repo_loop scopes path skills (sf.rel_path ∷ seen),
      )
  | inr other ↦ ground (
    arith,
    text_eq_iff sf.rel_path path,
    text_eq_iff path sf.rel_path,
    count_path-repo_loop scopes path skills seen,
    count_path-repo_loop scopes path skills (sf.rel_path ∷ seen),
  )
]

abbrev is_some : Option LinkedSkill → Bool
is_some none = false
is_some (some ls) = true

Option-cases : (o : Option LinkedSkill) → (o ≡ none) ⊎ ((ls : LinkedSkill) × (o ≡ some ls))
Option-cases none = inl refl
Option-cases (some ls) = inr (ls, refl)

-- Every entry is stored under the path of its file.
abbrev IsKeyed : (Text → Option LinkedSkill) → Type 0
IsKeyed m = (k : Text) (ls : LinkedSkill) → m k ≡ some ls → ls.file.rel_path ≡ k

is_some-collect_deps :
    (scopes : Text → List Text) (path : Text) (skills : List SkillFile)
    (m : Text → Option LinkedSkill)
    → is_some (collect_deps scopes skills m path) ≡ (is_some (m path) || listed skills path)
unfolding collect_deps
is_some-collect_deps scopes path [] m = ground arith
is_some-collect_deps scopes path (sf ∷ skills) m = elim (Bool-cases (text_eq sf.rel_path path)) [
  | inl same ↦ is_some-collect_deps scopes path skills _ ∙ ground arith
  | inr other ↦ is_some-collect_deps scopes path skills _ ∙ ground arith
]

put-IsKeyed :
    (key : Text) (value : Option LinkedSkill) (m : Text → Option LinkedSkill)
    → ((ls : LinkedSkill) → value ≡ some ls → ls.file.rel_path ≡ key)
    → IsKeyed m
    → IsKeyed (put key value m)
put-IsKeyed key value m own keyed k ls h = elim (Bool-cases (text_eq key k)) [
  | inl same ↦
      let e : key ≡ k = (text_eq_iff key k).0 same in
      let stored : value ≡ some ls = ground arith in own ls stored ∙ e
  | inr other ↦ let kept : m k ≡ some ls = ground arith in keyed k ls kept
]

merged_dep-rel_path :
    (scopes : Text → List Text) (sf : SkillFile) (old : Option LinkedSkill)
    → ((ls : LinkedSkill) → old ≡ some ls → ls.file.rel_path ≡ sf.rel_path)
    → (merged_dep scopes sf old).file.rel_path ≡ sf.rel_path
unfolding merged_dep
merged_dep-rel_path scopes sf none own = refl
merged_dep-rel_path scopes sf (some ls) own = own ls refl

some-eq : {A : Type 0} {a b : A} → ◌≡◌ {A = Option A} (some a) (some b) → a ≡ b
some-eq h = ground arith

collect_deps-IsKeyed :
    (scopes : Text → List Text) (skills : List SkillFile) (m : Text → Option LinkedSkill)
    → IsKeyed m
    → IsKeyed (collect_deps scopes skills m)
unfolding collect_deps
collect_deps-IsKeyed scopes [] m keyed = keyed
collect_deps-IsKeyed scopes (sf ∷ skills) m keyed = collect_deps-IsKeyed scopes skills _ (
    put-IsKeyed sf.rel_path (some (merged_dep scopes sf (m sf.rel_path))) m
      (λ ls h.
        ap (λ (l : LinkedSkill). l.file.rel_path) (sym (some-eq h))
        ∙ merged_dep-rel_path scopes sf (m sf.rel_path) (keyed sf.rel_path))
      keyed)

count_path-emit_deps :
    (path : Text) (skills : List SkillFile) (m : Text → Option LinkedSkill)
    → IsKeyed m
    → count_path path (emit_deps skills m) ≡ one_if (is_some (m path) && listed skills path)
unfolding count_path emit_deps
count_path-emit_deps path [] m keyed = ground arith
count_path-emit_deps path (sf ∷ skills) m keyed = elim (Option-cases (m sf.rel_path)) [
  | inl missing ↦ elim (Bool-cases (text_eq sf.rel_path path)) [
    | inl same ↦
        let e : sf.rel_path ≡ path = (text_eq_iff sf.rel_path path).0 same in
        ground (arith, e, missing, count_path-emit_deps path skills m keyed)
    | inr other ↦ ground (arith, missing, count_path-emit_deps path skills m keyed)
  ]
  | inr (ls, present) ↦
      let file : ls.file.rel_path ≡ sf.rel_path = keyed sf.rel_path ls present in
      let rest =
        count_path-emit_deps path skills (put sf.rel_path none m)
          (put-IsKeyed sf.rel_path none m (λ l h. absurd (ground arith)) keyed) in
      elim (Bool-cases (text_eq sf.rel_path path)) [
        | inl same ↦
            let e : sf.rel_path ≡ path = (text_eq_iff sf.rel_path path).0 same in
            ground (arith, e, file, same, present, rest)
        | inr other ↦ ground (arith, file, other, present, rest)
      ]
]

-- Link lists every path of a repo skill once among the repo skills, and every path of a dependency
-- skill once among the dependencies, however often it was discovered, and lists no other path.
pub count_path-link :
    (paths : Paths) (rules : List Rule) (repo deps : List SkillFile) (path : Text)
    → count_path path (link paths rules repo deps)
      ≡ one_if (listed repo path) + one_if (listed deps path)
unfolding link elem
count_path-link paths rules repo deps path =
    let repo_scopes = resolve_repo_skill_scopes rules repo in
    let dep_scopes = resolve_dep_skill_scopes paths rules deps in
    count_path-append path (repo_loop repo_scopes repo []) _
    ∙ ground (
      arith,
      count_path-repo_loop repo_scopes path repo [],
      is_some-collect_deps dep_scopes path deps no_entries,
      count_path-emit_deps path deps (collect_deps dep_scopes deps no_entries)
          (collect_deps-IsKeyed dep_scopes deps no_entries (λ k ls h. absurd (ground arith))),
    )
