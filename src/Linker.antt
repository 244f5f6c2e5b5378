-- ===== src/Linker.antt =====
-- internal/linker/linker.go: under which scopes a discovered skill is visible. A Go map from paths is a
-- function; a missing key has no scopes. Of a skill file (internal/scanner/scanner.go) the fields that
-- the linker reads are modelled, and `body` for the rest.
pub mod Grants
pub mod Once
pub mod Repo
mod Tests
use skillex.Prelude.{
  Bool, true, false, ◌||◌, not, Option, none, some, List, [], ◌∷◌, ◌++◌, Text, codes, is_empty,
  text_eq, elem, any, length, ltb, has_prefix, trim_suffix, if◌then◌else◌,
}

-- Rule of internal/config/config.go
pub record Rule : Type 0 where
  pub scope : Text
  pub skills : List Text
  pub dependency_boundary : Text

-- SkillFile
pub record SkillFile : Type 0 where
  pub rel_path : Text
  pub body : Text
  pub visibility : Text
  pub is_test : Bool
  pub dependency_boundary : Text
  pub package_root : Text
  pub explicit_scopes : List Text

-- LinkedSkill
pub record LinkedSkill : Type 0 where
  pub file : SkillFile
  pub scopes : List Text

-- The packages path/filepath and github.com/gobwas/glob.
pub record Paths : Type 0 where
  -- filepath.ToSlash
  pub to_slash : Text → Text
  -- filepath.Join(root, "**")
  pub join_all : Text → Text
  -- glob.Compile with the separator '/'
  pub compile : Text → Option (Text → Bool)

-- m[key] = value
abbrev pub put {ℓ} : {A : Type ℓ} → Text → A → (Text → A) → Text → A
put key value m = λ k. if text_eq key k then value else m k

abbrev pub no_scopes : Text → List Text
no_scopes k = []

-- The loop of appendUnique; the texts of `slice` stand for those that were seen, as all are in it.
unfoldable pub append_unique : List Text → List Text → List Text
append_unique slice [] = slice
append_unique slice (item ∷ items) =
    append_unique (if elem item slice then slice else slice ++ item ∷ []) items

-- Whether a repo skill has the path: skillSet
abbrev pub listed : List SkillFile → Text → Bool
listed skills path = any (λ sf. text_eq sf.rel_path path) skills

-- for _, skillRef := range rule.Skills
unfoldable pub ref_loop : List SkillFile → Text → List Text → (Text → List Text) → Text → List Text
ref_loop skills scope [] m = m
ref_loop skills scope (r ∷ refs) m =
    ref_loop skills scope refs
      (if listed skills r then put r (append_unique (m r) (scope ∷ [])) m else m)

unfoldable pub rule_loop : List SkillFile → List Rule → (Text → List Text) → Text → List Text
rule_loop skills [] m = m
rule_loop skills (rule ∷ rules) m =
    rule_loop skills rules (ref_loop skills rule.scope rule.skills m)

-- resolveRepoSkillScopes
unfoldable pub resolve_repo_skill_scopes : List Rule → List SkillFile → Text → List Text
resolve_repo_skill_scopes rules skills = rule_loop skills rules no_scopes

-- boundaryScopes
unfoldable pub boundary_loop : List Rule → (Text → List Text) → Text → List Text
boundary_loop [] m = m
boundary_loop (rule ∷ rules) m = boundary_loop rules (
    if is_empty rule.dependency_boundary
    then m
    else put rule.dependency_boundary (append_unique (m rule.dependency_boundary) (rule.scope ∷ []))
        m)

abbrev pub is_public : SkillFile → Bool
is_public sf = text_eq sf.visibility (codes "public")

abbrev pub is_private : SkillFile → Bool
is_private sf = text_eq sf.visibility (codes "private")

-- What the switch of resolveDepSkillScopes adds for a skill.
unfoldable pub added_scopes : Paths → (Text → List Text) → SkillFile → List Text
added_scopes paths boundary_scopes sf =
    if is_public sf
    then if ltb 0 (length sf.explicit_scopes)
      then sf.explicit_scopes
      else if is_empty sf.dependency_boundary
      then []
      else boundary_scopes sf.dependency_boundary
    else if is_private sf
    then if ltb 0 (length sf.explicit_scopes)
      then sf.explicit_scopes
      else if is_empty sf.package_root
      then []
      else paths.to_slash (paths.join_all sf.package_root) ∷ []
    else []

-- The loop of resolveDepSkillScopes; a test takes away what its path had.
unfoldable pub dep_loop :
    Paths → (Text → List Text) → List SkillFile → (Text → List Text) → Text → List Text
dep_loop paths boundary_scopes [] m = m
dep_loop paths boundary_scopes (sf ∷ skills) m = dep_loop paths boundary_scopes skills (
    put sf.rel_path
      (if sf.is_test
        then []
        else append_unique (m sf.rel_path) (added_scopes paths boundary_scopes sf))
      m)

-- resolveDepSkillScopes
unfoldable pub resolve_dep_skill_scopes : Paths → List Rule → List SkillFile → Text → List Text
resolve_dep_skill_scopes paths rules skills =
    dep_loop paths (boundary_loop rules no_scopes) skills no_scopes

abbrev pub link_repo_skill : (Text → List Text) → SkillFile → LinkedSkill
link_repo_skill scopes sf = record {
  file = sf;
  scopes =
      if sf.is_test
      then []
      else if ltb 0 (length sf.explicit_scopes)
      then sf.explicit_scopes
      else scopes sf.rel_path;
}

-- The loop of Link over the repo skills, with the paths that it has seen.
unfoldable pub repo_loop : (Text → List Text) → List SkillFile → List Text → List LinkedSkill
repo_loop scopes [] seen = []
repo_loop scopes (sf ∷ skills) seen =
    let rest =
      repo_loop scopes skills (if elem sf.rel_path seen then seen else sf.rel_path ∷ seen) in
    if elem sf.rel_path seen then rest else link_repo_skill scopes sf ∷ rest

-- What depByPath holds for a path after one more discovery of it.
unfoldable pub merged_dep : (Text → List Text) → SkillFile → Option LinkedSkill → LinkedSkill
merged_dep scopes sf none = record { file = sf; scopes = scopes sf.rel_path }
merged_dep scopes sf (some existing) = record existing {
  scopes = append_unique existing.scopes (scopes sf.rel_path);
}

-- depByPath
unfoldable pub collect_deps :
    (Text → List Text) → List SkillFile → (Text → Option LinkedSkill) → Text → Option LinkedSkill
collect_deps scopes [] m = m
collect_deps scopes (sf ∷ skills) m =
    collect_deps scopes skills (put sf.rel_path (some (merged_dep scopes sf (m sf.rel_path))) m)

-- The loop that appends each entry of depByPath, and deletes it.
unfoldable pub emit_deps : List SkillFile → (Text → Option LinkedSkill) → List LinkedSkill
emit_deps [] m = []
emit_deps (sf ∷ skills) m = elim (m sf.rel_path) [
  | none ↦ emit_deps skills m
  | some ls ↦ ls ∷ emit_deps skills (put sf.rel_path none m)
]

abbrev pub no_entries : Text → Option LinkedSkill
no_entries k = none

-- Link
unfoldable pub link : Paths → List Rule → List SkillFile → List SkillFile → List LinkedSkill
link paths rules repo_skills dep_skills =
    repo_loop (resolve_repo_skill_scopes rules repo_skills) repo_skills []
    ++ emit_deps dep_skills
        (collect_deps (resolve_dep_skill_scopes paths rules dep_skills) dep_skills no_entries)

-- MatchesPath
unfoldable pub matches_path : Paths → Text → Text → Bool
matches_path paths scope working_path =
    let scope = paths.to_slash scope in
    let path = paths.to_slash working_path in
    if text_eq scope (codes "**") || text_eq scope (codes "**/**")
    then true
    else elim (paths.compile scope) [
      | none ↦ has_prefix path (trim_suffix scope (codes "/**"))
      | some g ↦ g path
    ]

-- The loop of ScopesForPath.
unfoldable pub scopes_loop : Paths → List Rule → Text → List Text → List Text
scopes_loop paths [] working_path scopes = scopes
scopes_loop paths (rule ∷ rules) working_path scopes = scopes_loop paths rules working_path (
    if matches_path paths rule.scope working_path
    then append_unique scopes (rule.scope ∷ [])
    else scopes)

-- ScopesForPath
unfoldable pub scopes_for_path : Paths → List Rule → Text → List Text
scopes_for_path paths rules working_path = scopes_loop paths rules working_path []
