-- ===== src/Linker/Tests.antt =====
-- The theorems about internal/linker at inputs where they apply.
use skillex.Prelude.{
  All, Text, ◌+◌, ◌≡◌, refl, ◌&&◌, none, false, List, [], ◌∷◌, ◌++◌, codes, text_eq, elem, any,
}
use skillex.Linker.{Rule, SkillFile, LinkedSkill, Paths, listed, resolve_dep_skill_scopes, link}
use skillex.Linker.Grants.{grants, elem-resolve_dep_skill_scopes}
use skillex.Linker.Repo.{IsLinked, link-IsLinked}
use skillex.Linker.Once.{one_if, count_path, count_path-link}

-- A path library for paths that are clean, and a glob library that refuses every pattern.
abbrev paths : Paths
paths = record { to_slash = λ s. s; join_all = λ s. s ++ codes "/**"; compile = λ pattern. none }

abbrev rules : List Rule
rules =
    record { scope = codes "web/**"; skills = codes "a.md" ∷ []; dependency_boundary = codes "web" }
    ∷ []

abbrev repo : List SkillFile
repo =
    record {
      rel_path = codes "a.md";
      body = [];
      visibility = codes "repo";
      is_test = false;
      dependency_boundary = [];
      package_root = [];
      explicit_scopes = [];
    }
    ∷ []

-- A private skill that was discovered twice.
abbrev private_skill : SkillFile
private_skill = record {
  rel_path = codes "ui/s.md";
  body = [];
  visibility = codes "private";
  is_test = false;
  dependency_boundary = codes "web";
  package_root = codes "ui";
  explicit_scopes = [];
}

abbrev deps : List SkillFile
deps = private_skill ∷ private_skill ∷ []

link-IsLinked_example :
    (own : List LinkedSkill) × (others : List LinkedSkill) × (link paths rules repo deps
      ≡ own ++ others)
    × ((path : Text) → count_path path own ≡ one_if (listed repo path))
    × All (IsLinked rules repo) own
link-IsLinked_example = link-IsLinked paths rules repo deps

elem-resolve_dep_skill_scopes_example :
    elem (codes "web/**") (resolve_dep_skill_scopes paths rules deps (codes "ui/s.md"))
    ≡ any
        (λ sf. text_eq sf.rel_path (codes "ui/s.md") && grants paths rules (codes "web/**") sf)
        deps
elem-resolve_dep_skill_scopes_example =
    elem-resolve_dep_skill_scopes paths rules deps (codes "ui/s.md") (codes "web/**") refl

count_path-link_example :
    count_path (codes "ui/s.md") (link paths rules repo deps)
    ≡ one_if (listed repo (codes "ui/s.md")) + one_if (listed deps (codes "ui/s.md"))
count_path-link_example = count_path-link paths rules repo deps (codes "ui/s.md")
