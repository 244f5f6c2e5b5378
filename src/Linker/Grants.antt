-- ===== src/Linker/Grants.antt =====
-- What the scope maps of internal/linker/linker.go say: which rule, boundary or package grants a skill
-- a scope.
use skillex.Prelude.{
  ◌≡◌, refl, ◌∙◌, Bool, false, ◌&&◌, ◌||◌, not, List, [], ◌∷◌, ◌++◌, Text, is_empty, text_eq,
  text_eq_iff, text_eq_refl, elem, any, length, ltb, if◌then◌else◌, arith, Bool-cases, inl, inr,
}
use skillex.Linker.{
  Rule, SkillFile, Paths, append_unique, listed, ref_loop, rule_loop, resolve_repo_skill_scopes,
  boundary_loop, is_public, is_private, added_scopes, dep_loop, resolve_dep_skill_scopes,
  matches_path, scopes_loop, scopes_for_path,
}

elem-append : (x : Text) (xs ys : List Text) → elem x (xs ++ ys) ≡ (elem x xs || elem x ys)
unfolding elem
elem-append x [] ys = refl
elem-append x (y ∷ xs) ys = ground (arith, elem-append x xs ys)

elem-one : (x y : Text) → elem x (y ∷ []) ≡ text_eq x y
unfolding elem
elem-one x y = ground arith

elem-append_unique_one :
    (x y : Text) (slice : List Text)
    → elem x (if elem y slice then slice else slice ++ y ∷ []) ≡ (elem x slice || text_eq x y)
elem-append_unique_one x y slice = elim (Bool-cases (text_eq x y)) [
  | inl same ↦
      let e : x ≡ y = (text_eq_iff x y).0 same in
      ground (arith, e, elem-append x slice (y ∷ []), elem-one x y)
  | inr other ↦ ground (arith, elem-append x slice (y ∷ []), elem-one x y)
]

-- appendUnique gives the items of both lists.
pub elem-append_unique :
    (x : Text) (slice items : List Text)
    → elem x (append_unique slice items) ≡ (elem x slice || elem x items)
unfolding append_unique elem
elem-append_unique x slice [] = ground arith
elem-append_unique x slice (y ∷ items) =
    elem-append_unique x (if elem y slice then slice else slice ++ y ∷ []) items
    ∙ ground (arith, elem-append_unique_one x y slice)

elem-ref_loop :
    (skills : List SkillFile) (scope : Text) (refs : List Text) (m : Text → List Text)
    (path x : Text)
    → elem x (ref_loop skills scope refs m path)
      ≡ (elem x (m path) || (listed skills path && (elem path refs && text_eq x scope)))
unfolding ref_loop elem
elem-ref_loop skills scope [] m path x = ground arith
elem-ref_loop skills scope (r ∷ refs) m path x = elim (Bool-cases (text_eq r path)) [
  | inl same ↦
      let e : r ≡ path = (text_eq_iff r path).0 same in
      elem-ref_loop skills scope refs _ path x
      ∙ ground
          (arith, e, text_eq_refl path, elem-append_unique x (m r) (scope ∷ []), elem-one x scope)
  | inr other ↦
      elem-ref_loop skills scope refs _ path x
      ∙ ground (arith, text_eq_iff r path, text_eq_iff path r)
]

elem-rule_loop :
    (skills : List SkillFile) (rules : List Rule) (m : Text → List Text) (path x : Text)
    → elem x (rule_loop skills rules m path) ≡ (
        elem x (m path)
        || (listed skills path
            && any (λ rule. elem path rule.skills && text_eq x rule.scope) rules))
unfolding rule_loop
elem-rule_loop skills [] m path x = ground arith
elem-rule_loop skills (rule ∷ rules) m path x =
    elem-rule_loop skills rules (ref_loop skills rule.scope rule.skills m) path x
    ∙ ground (arith, elem-ref_loop skills rule.scope rule.skills m path x)

-- The scope map holds a scope for a path exactly if a repo skill has the path and a rule with that
-- scope names it.
pub elem-resolve_repo_skill_scopes :
    (rules : List Rule) (skills : List SkillFile) (path x : Text)
    → elem x (resolve_repo_skill_scopes rules skills path)
      ≡ (listed skills path && any (λ rule. elem path rule.skills && text_eq x rule.scope) rules)
unfolding resolve_repo_skill_scopes
elem-resolve_repo_skill_scopes rules skills path x =
    elem-rule_loop skills rules (λ k. []) path x ∙ unfold elem in refl

-- Whether a rule gives a scope to the public skills of a boundary.
abbrev pub scopes_boundary : Text → Text → Rule → Bool
scopes_boundary boundary x rule =
    not (is_empty rule.dependency_boundary)
    && (text_eq rule.dependency_boundary boundary && text_eq x rule.scope)

elem-boundary_loop :
    (rules : List Rule) (m : Text → List Text) (boundary x : Text)
    → elem x (boundary_loop rules m boundary)
      ≡ (elem x (m boundary) || any (scopes_boundary boundary x) rules)
unfolding boundary_loop
elem-boundary_loop [] m boundary x = ground arith
elem-boundary_loop (rule ∷ rules) m boundary x =
    elim (Bool-cases (text_eq rule.dependency_boundary boundary)) [
      | inl same ↦
          let e : rule.dependency_boundary ≡ boundary =
            (text_eq_iff rule.dependency_boundary boundary).0 same in
          elem-boundary_loop rules _ boundary x
          ∙ ground (
            arith,
            e,
            same,
            elem-append_unique x (m boundary) (rule.scope ∷ []),
            elem-one x rule.scope,
          )
      | inr other ↦ elem-boundary_loop rules _ boundary x ∙ ground arith
    ]

-- Whether a dependency skill is granted a scope: by its own list if it has one; else, if it is public,
-- by a rule for the boundary that resolved it, and if it is private, as the whole of its package.
unfoldable pub grants : Paths → List Rule → Text → SkillFile → Bool
grants paths rules x sf =
    if not (is_public sf || is_private sf)
    then false
    else if ltb 0 (length sf.explicit_scopes)
    then elem x sf.explicit_scopes
    else if is_public sf
    then not (is_empty sf.dependency_boundary)
      && any (scopes_boundary sf.dependency_boundary x) rules
    else not (is_empty sf.package_root)
      && text_eq x (paths.to_slash (paths.join_all sf.package_root))

elem-added_scopes :
    (paths : Paths) (rules : List Rule) (x : Text) (sf : SkillFile)
    → elem x (added_scopes paths (boundary_loop rules (λ k. [])) sf) ≡ grants paths rules x sf
unfolding added_scopes grants elem
elem-added_scopes paths rules x sf =
    ground (arith, elem-boundary_loop rules (λ k. []) sf.dependency_boundary x)

elem-dep_loop :
    (paths : Paths) (rules : List Rule) (skills : List SkillFile) (m : Text → List Text)
    (path x : Text)
    → any (λ sf. sf.is_test) skills ≡ false
    → elem x (dep_loop paths (boundary_loop rules (λ k. [])) skills m path)
      ≡ (elem x (m path) || any (λ sf. text_eq sf.rel_path path && grants paths rules x sf) skills)
unfolding dep_loop
elem-dep_loop paths rules [] m path x h = ground arith
elem-dep_loop paths rules (sf ∷ skills) m path x h = elim (Bool-cases (text_eq sf.rel_path path)) [
  | inl same ↦
      let e : sf.rel_path ≡ path = (text_eq_iff sf.rel_path path).0 same in
      elem-dep_loop paths rules skills _ path x (ground arith)
      ∙ ground (
        arith,
        e,
        same,
        h,
        elem-added_scopes paths rules x sf,
        elem-append_unique x (m path) (added_scopes paths (boundary_loop rules (λ k. [])) sf),
      )
  | inr other ↦ elem-dep_loop paths rules skills _ path x (ground arith) ∙ ground arith
]

-- A path among dependency skills, none of them a test, has a scope exactly if one of the skills found
-- at that path grants it. A skill with scopes of its own grants just these, wherever they lead, be it
-- public or private; else a public one grants the scopes of the rules for the boundary that resolved
-- it, and a private one the whole of its package.
pub elem-resolve_dep_skill_scopes :
    (paths : Paths) (rules : List Rule) (skills : List SkillFile) (path x : Text)
    → any (λ sf. sf.is_test) skills ≡ false
    → elem x (resolve_dep_skill_scopes paths rules skills path)
      ≡ any (λ sf. text_eq sf.rel_path path && grants paths rules x sf) skills
unfolding resolve_dep_skill_scopes
elem-resolve_dep_skill_scopes paths rules skills path x h =
    elem-dep_loop paths rules skills (λ k. []) path x h ∙ unfold elem in refl

elem-scopes_loop :
    (paths : Paths) (rules : List Rule) (path x : Text) (scopes : List Text)
    → elem x (scopes_loop paths rules path scopes) ≡ (
        elem x scopes
        || any (λ rule. matches_path paths rule.scope path && text_eq x rule.scope) rules)
unfolding scopes_loop
elem-scopes_loop paths [] path x scopes = ground arith
elem-scopes_loop paths (rule ∷ rules) path x scopes =
    elem-scopes_loop paths rules path x _
    ∙ ground (arith, elem-append_unique x scopes (rule.scope ∷ []), elem-one x rule.scope)

-- ScopesForPath gives the scopes of the rules that match the path.
pub elem-scopes_for_path :
    (paths : Paths) (rules : List Rule) (path x : Text)
    → elem x (scopes_for_path paths rules path)
      ≡ any (λ rule. matches_path paths rule.scope path && text_eq x rule.scope) rules
unfolding scopes_for_path
elem-scopes_for_path paths rules path x =
    elem-scopes_loop paths rules path x [] ∙ unfold elem in refl
