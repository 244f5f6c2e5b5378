-- ===== src/Linker/Repo.antt =====
-- What Link of internal/linker/linker.go makes of the skills of the repository itself.
use skillex.Prelude.{
  ◌≡◌, ◌∙◌, refl, sym, ap, Bool, true, false, ◌&&◌, ◌||◌, List, [], ◌∷◌, ◌++◌, Text, text_eq,
  text_eq_iff, text_eq_refl, elem, any, length, ltb, if◌then◌else◌, All, arith, Bool-cases, inl,
  inr,
}
use skillex.Linker.{
  Rule, SkillFile, LinkedSkill, Paths, listed, resolve_repo_skill_scopes, resolve_dep_skill_scopes,
  link_repo_skill, repo_loop, collect_deps, emit_deps, no_entries, link,
}
use skillex.Linker.Grants.{elem-resolve_repo_skill_scopes}
use skillex.Linker.Once.{one_if, count_path, count_path-repo_loop}

-- Whether a repo skill has a scope: a test has none, a skill with scopes of its own has these, and any
-- other has those of the rules that name its path.
abbrev pub has_scope : List Rule → Text → SkillFile → Bool
has_scope rules x sf =
    if sf.is_test
    then false
    else if ltb 0 (length sf.explicit_scopes)
    then elem x sf.explicit_scopes
    else any (λ rule. elem sf.rel_path rule.skills && text_eq x rule.scope) rules

-- The linked skill is the first of the repo skills with its path, and has exactly its scopes.
abbrev pub IsLinked : List Rule → List SkillFile → LinkedSkill → Type 0
IsLinked rules repo ls =
    (before after : List SkillFile) × (repo ≡ before ++ ls.file ∷ after)
    × (listed before ls.file.rel_path ≡ false)
    × ((x : Text) → elem x ls.scopes ≡ has_scope rules x ls.file)

append_step :
    (before : List SkillFile) (sf : SkillFile) (skills : List SkillFile)
    → before ++ sf ∷ skills ≡ (before ++ sf ∷ []) ++ skills
append_step [] sf skills = refl
append_step (b ∷ before) sf skills = ap (λ l. b ∷ l) (append_step before sf skills)

listed-step :
    (before : List SkillFile) (sf : SkillFile) (path : Text)
    → listed (before ++ sf ∷ []) path ≡ (listed before path || text_eq sf.rel_path path)
listed-step [] sf path = ground arith
listed-step (b ∷ before) sf path = ground (arith, listed-step before sf path)

listed_within :
    (before : List SkillFile) (sf : SkillFile) (after : List SkillFile)
    → listed (before ++ sf ∷ after) sf.rel_path ≡ true
listed_within [] sf after = ground (arith, text_eq_refl sf.rel_path)
listed_within (b ∷ before) sf after = ground (arith, listed_within before sf after)

elem-seen :
    (path new : Text) (seen : List Text)
    → elem path (if elem new seen then seen else new ∷ seen) ≡ (elem path seen || text_eq new path)
unfolding elem
elem-seen path new seen = elim (Bool-cases (text_eq new path)) [
  | inl same ↦
      let e : new ≡ path = (text_eq_iff new path).0 same in ground (arith, e, text_eq_refl path)
  | inr other ↦ ground (arith, text_eq_iff path new, text_eq_iff new path)
]

link_repo_skill-scopes :
    (rules : List Rule) (repo : List SkillFile) (sf : SkillFile) (x : Text)
    → listed repo sf.rel_path ≡ true
    → elem x (link_repo_skill (resolve_repo_skill_scopes rules repo) sf).scopes
      ≡ has_scope rules x sf
unfolding elem
link_repo_skill-scopes rules repo sf x there =
    ground (arith, there, elem-resolve_repo_skill_scopes rules repo sf.rel_path x)

link_repo_skill-IsLinked :
    (rules : List Rule) (repo before : List SkillFile) (sf : SkillFile) (after : List SkillFile)
    → repo ≡ before ++ sf ∷ after
    → listed before sf.rel_path ≡ false
    → IsLinked rules repo (link_repo_skill (resolve_repo_skill_scopes rules repo) sf)
link_repo_skill-IsLinked rules repo before sf after split new = (
  before,
  after,
  split,
  new,
  λ x.
      link_repo_skill-scopes rules repo sf x
        (ap (λ l. listed l sf.rel_path) split ∙ listed_within before sf after),
)

repo_loop-IsLinked :
    (rules : List Rule) (repo before skills : List SkillFile) (seen : List Text)
    → repo ≡ before ++ skills
    → ((path : Text) → elem path seen ≡ listed before path)
    → All (IsLinked rules repo) (repo_loop (resolve_repo_skill_scopes rules repo) skills seen)
unfolding repo_loop
repo_loop-IsLinked rules repo before [] seen split same = tt
repo_loop-IsLinked rules repo before (sf ∷ skills) seen split same =
    let rest =
      repo_loop-IsLinked rules repo (before ++ sf ∷ []) skills
        (if elem sf.rel_path seen then seen else sf.rel_path ∷ seen)
        (split ∙ append_step before sf skills)
        (λ path.
          elem-seen path sf.rel_path seen
          ∙ ap (λ b. b || text_eq sf.rel_path path) (same path)
          ∙ sym (listed-step before sf path)) in
    elim (Bool-cases (elem sf.rel_path seen)) [
      | inl old ↦ rw old (rw old at rest)
      | inr new ↦ rw new (
        link_repo_skill-IsLinked rules repo before sf skills split (sym (same sf.rel_path) ∙ new),
        rw new at rest,
      )
    ]

-- Link lists first the skills of the repository: each path once, as the first skill with that path, and
-- with a scope exactly if the skill is no test and has the scope itself or, having none of its own, a
-- rule with the scope names its path.
pub link-IsLinked :
    (paths : Paths) (rules : List Rule) (repo deps : List SkillFile)
    → (own : List LinkedSkill) × (others : List LinkedSkill) × (link paths rules repo deps
        ≡ own ++ others)
      × ((path : Text) → count_path path own ≡ one_if (listed repo path))
      × All (IsLinked rules repo) own
unfolding link elem
link-IsLinked paths rules repo deps =
    let scopes = resolve_repo_skill_scopes rules repo in
    (
      repo_loop scopes repo [],
      emit_deps deps (collect_deps (resolve_dep_skill_scopes paths rules deps) deps no_entries),
      refl,
      λ path. count_path-repo_loop scopes path repo [] ∙ ground arith,
      repo_loop-IsLinked rules repo [] repo [] refl (λ path. refl),
    )
