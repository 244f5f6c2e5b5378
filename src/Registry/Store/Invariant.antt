-- ===== src/Registry/Store/Invariant.antt =====
-- The table `skills` of internal/registry/registry.go: its ids and paths are unique, and an id that
-- it will give is unused.
use skillex.Prelude.{
  ℕ, ◌+◌, ◌≤◌, ◌<◌, ◌≡◌, refl, ◌≢◌, sym, none, some, List, [], ◌∷◌, Text, text_eq, text_eq_iff,
  ◌==◌, arith, Bool-cases, Option-cases, inl, inr,
}
use skillex.Registry.Store.{
  Skill, SkillRow, Tables, find_row, upsert_rows, delete_skill_row, skill_id_by_path, upsert_skill,
  replace_children, insert_skill, delete_skill_by_path,
}

abbrev pub PathAbsent : Text → List SkillRow → Type 0
PathAbsent p [] = Unit
PathAbsent p (r ∷ rs) = (r.path ≢ p) × PathAbsent p rs

abbrev pub IdAbsent : ℕ → List SkillRow → Type 0
IdAbsent i [] = Unit
IdAbsent i (r ∷ rs) = (r.id ≢ i) × IdAbsent i rs

abbrev pub AreUnique : List SkillRow → Type 0
AreUnique [] = Unit
AreUnique (r ∷ rs) = PathAbsent r.path rs × IdAbsent r.id rs × AreUnique rs

abbrev pub AreBelow : ℕ → List SkillRow → Type 0
AreBelow n [] = Unit
AreBelow n (r ∷ rs) = (r.id < n) × AreBelow n rs

pub record IsWellFormed (t : Tables) : Type 0 where
  pub unique : AreUnique t.skills
  pub below : AreBelow t.next_id t.skills

-- What the invariant says of the rows that a read finds.
pub id_of_found :
    (i : ℕ) (p : Text) (rows : List SkillRow) {r : SkillRow}
    → IdAbsent i rows
    → find_row p rows ≡ some r
    → r.id ≢ i
unfolding find_row
id_of_found i p [] a f = cc
id_of_found i p (x ∷ xs) a f = elim (Bool-cases (text_eq x.path p)) [
  | inl h ↦ ground (arith, a.0)
  | inr h ↦ id_of_found i p xs a.1 (rw h at f)
]

pub below_of_found :
    (n : ℕ) (p : Text) (rows : List SkillRow) {r : SkillRow}
    → AreBelow n rows
    → find_row p rows ≡ some r
    → r.id < n
unfolding find_row
below_of_found n p [] a f = cc
below_of_found n p (x ∷ xs) a f = elim (Bool-cases (text_eq x.path p)) [
  | inl h ↦ ground arith
  | inr h ↦ below_of_found n p xs a.1 (rw h at f)
]

pub none_of_absent : (p : Text) (rows : List SkillRow) → PathAbsent p rows → find_row p rows ≡ none
unfolding find_row
none_of_absent p [] a = refl
none_of_absent p (x ∷ xs) a = ground (arith, text_eq_iff x.path p, a.0, none_of_absent p xs a.1)

pub ids_differ :
    (p q : Text) (rows : List SkillRow) {a b : SkillRow}
    → AreUnique rows
    → p ≢ q
    → find_row p rows ≡ some a
    → find_row q rows ≡ some b
    → a.id ≢ b.id
unfolding find_row
ids_differ p q [] u d f g = cc
ids_differ p q (x ∷ xs) {a} {b} u d f g = elim (Bool-cases (text_eq x.path p)) [
  | inl h ↦
      let g' : find_row q xs ≡ some b =
        ground (arith, text_eq_iff x.path p, text_eq_iff x.path q) in
      let apart = id_of_found x.id q xs u.1 g' in λ e. apart (ground arith)
  | inr h ↦ elim (Bool-cases (text_eq x.path q)) [
    | inl k ↦ let apart = id_of_found x.id p xs u.1 (rw h at f) in λ e. apart (ground arith)
    | inr k ↦ ids_differ p q xs u.2 d (rw h at f) (rw k at g)
  ]
]

-- The upsert keeps the invariant.
PathAbsent-upsert :
    (p : Text) (n : ℕ) (s : Skill) (rows : List SkillRow)
    → s.path ≢ p
    → PathAbsent p rows
    → PathAbsent p (upsert_rows n s rows)
unfolding upsert_rows
PathAbsent-upsert p n s [] d a = (d, tt)
PathAbsent-upsert p n s (x ∷ xs) d a = elim (Bool-cases (text_eq x.path s.path)) [
  | inl h ↦ rw h (d, a.1)
  | inr h ↦ rw h (a.0, PathAbsent-upsert p n s xs d a.1)
]

IdAbsent-upsert :
    (i n : ℕ) (s : Skill) (rows : List SkillRow)
    → n ≢ i
    → IdAbsent i rows
    → IdAbsent i (upsert_rows n s rows)
unfolding upsert_rows
IdAbsent-upsert i n s [] d a = (d, tt)
IdAbsent-upsert i n s (x ∷ xs) d a = elim (Bool-cases (text_eq x.path s.path)) [
  | inl h ↦ rw h (a.0, a.1)
  | inr h ↦ rw h (a.0, IdAbsent-upsert i n s xs d a.1)
]

AreUnique-upsert :
    (n : ℕ) (s : Skill) (rows : List SkillRow)
    → AreUnique rows
    → AreBelow n rows
    → AreUnique (upsert_rows n s rows)
unfolding upsert_rows
AreUnique-upsert n s [] u b = (tt, tt, tt)
AreUnique-upsert n s (x ∷ xs) u b = elim (Bool-cases (text_eq x.path s.path)) [
  | inl h ↦ rw (h, ← (text_eq_iff x.path s.path).0 h) u
  | inr h ↦ rw h (
    PathAbsent-upsert x.path n s xs (λ e. cc ((text_eq_iff x.path s.path).1 (sym e))) u.0,
    IdAbsent-upsert x.id n s xs (omega arith) u.1,
    AreUnique-upsert n s xs u.2 b.1,
  )
]

AreBelow-le : (m n : ℕ) (rows : List SkillRow) → m ≤ n → AreBelow m rows → AreBelow n rows
AreBelow-le m n [] h b = tt
AreBelow-le m n (x ∷ xs) h b = (omega arith, AreBelow-le m n xs h b.1)

AreBelow-upsert_new :
    (n : ℕ) (s : Skill) (rows : List SkillRow)
    → AreBelow n rows
    → AreBelow (n + 1) (upsert_rows n s rows)
unfolding upsert_rows
AreBelow-upsert_new n s [] b = (omega arith, tt)
AreBelow-upsert_new n s (x ∷ xs) b = elim (Bool-cases (text_eq x.path s.path)) [
  | inl h ↦ rw h (omega arith, AreBelow-le n (n + 1) xs (omega arith) b.1)
  | inr h ↦ rw h (omega arith, AreBelow-upsert_new n s xs b.1)
]

AreBelow-upsert_old :
    (n : ℕ) (s : Skill) (rows : List SkillRow) {r : SkillRow}
    → find_row s.path rows ≡ some r
    → AreBelow n rows
    → AreBelow n (upsert_rows n s rows)
unfolding upsert_rows find_row
AreBelow-upsert_old n s [] f b = cc
AreBelow-upsert_old n s (x ∷ xs) f b = elim (Bool-cases (text_eq x.path s.path)) [
  | inl h ↦ rw h (b.0, b.1)
  | inr h ↦ rw h (b.0, AreBelow-upsert_old n s xs (rw h at f) b.1)
]

upsert_skill-IsWellFormed :
    (t : Tables) (s : Skill) → IsWellFormed t → IsWellFormed (upsert_skill t s)
unfolding upsert_skill
upsert_skill-IsWellFormed t s w = record {
  unique = AreUnique-upsert t.next_id s t.skills w.unique w.below;
  below = elim (Option-cases (find_row s.path t.skills)) [
    | inl e ↦ rw (e, upsert_skill) (AreBelow-upsert_new t.next_id s t.skills w.below)
    | inr (r, e) ↦ rw (e, upsert_skill) (AreBelow-upsert_old t.next_id s t.skills e w.below)
  ];
}

pub insert_skill-upsert :
    (t : Tables) (s : Skill) (id : ℕ) (t' : Tables)
    → insert_skill t s ≡ some (id, t')
    → (t'.skills ≡ (upsert_skill t s).skills) × (t'.next_id ≡ (upsert_skill t s).next_id)
unfolding insert_skill replace_children
insert_skill-upsert t s id t' e = elim (Option-cases (skill_id_by_path (upsert_skill t s) s.path)) [
  | inl h ↦ ground arith
  | inr (i, h) ↦ ground arith
]

-- Inserting a skill keeps the ids and paths of the table unique and its next id unused.
pub insert_skill-IsWellFormed :
    (t : Tables) (s : Skill) (id : ℕ) (t' : Tables)
    → IsWellFormed t
    → insert_skill t s ≡ some (id, t')
    → IsWellFormed t'
insert_skill-IsWellFormed t s id t' w e =
    let (skills, next) = insert_skill-upsert t s id t' e in
    let kept = upsert_skill-IsWellFormed t s w in
    record { unique = rw skills kept.unique; below = rw (skills, next) kept.below }

PathAbsent-delete :
    (p : Text) (id : ℕ) (rows : List SkillRow)
    → PathAbsent p rows
    → PathAbsent p (delete_skill_row id rows)
unfolding delete_skill_row
PathAbsent-delete p id [] a = tt
PathAbsent-delete p id (x ∷ xs) a = elim (Bool-cases (x.id == id)) [
  | inl h ↦ rw h (PathAbsent-delete p id xs a.1)
  | inr h ↦ rw h (a.0, PathAbsent-delete p id xs a.1)
]

IdAbsent-delete :
    (i id : ℕ) (rows : List SkillRow) → IdAbsent i rows → IdAbsent i (delete_skill_row id rows)
unfolding delete_skill_row
IdAbsent-delete i id [] a = tt
IdAbsent-delete i id (x ∷ xs) a = elim (Bool-cases (x.id == id)) [
  | inl h ↦ rw h (IdAbsent-delete i id xs a.1)
  | inr h ↦ rw h (a.0, IdAbsent-delete i id xs a.1)
]

AreUnique-delete :
    (id : ℕ) (rows : List SkillRow) → AreUnique rows → AreUnique (delete_skill_row id rows)
unfolding delete_skill_row
AreUnique-delete id [] u = tt
AreUnique-delete id (x ∷ xs) u = elim (Bool-cases (x.id == id)) [
  | inl h ↦ rw h (AreUnique-delete id xs u.2)
  | inr h ↦ rw h (
    PathAbsent-delete x.path id xs u.0,
    IdAbsent-delete x.id id xs u.1,
    AreUnique-delete id xs u.2,
  )
]

AreBelow-delete :
    (n id : ℕ) (rows : List SkillRow) → AreBelow n rows → AreBelow n (delete_skill_row id rows)
unfolding delete_skill_row
AreBelow-delete n id [] b = tt
AreBelow-delete n id (x ∷ xs) b = elim (Bool-cases (x.id == id)) [
  | inl h ↦ rw h (AreBelow-delete n id xs b.1)
  | inr h ↦ rw h (b.0, AreBelow-delete n id xs b.1)
]

-- Deleting a skill keeps the ids and paths of the table unique and its next id unused.
pub delete_skill_by_path-IsWellFormed :
    (t : Tables) (path : Text) → IsWellFormed t → IsWellFormed (delete_skill_by_path t path)
unfolding delete_skill_by_path
delete_skill_by_path-IsWellFormed t path w = elim (Option-cases (skill_id_by_path t path)) [
  | inl e ↦ rw (e, delete_skill_by_path) w
  | inr (id, e) ↦
      rw (e, delete_skill_by_path)
        (record {
          unique = AreUnique-delete id t.skills w.unique;
          below = AreBelow-delete t.next_id id t.skills w.below;
        })
]
