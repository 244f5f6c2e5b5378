-- ===== src/Registry/Store/Laws.antt =====
-- What a read finds after InsertSkill and DeleteSkillByPath of internal/registry/registry.go.
use skillex.Prelude.{
  ℕ, ◌≡◌, refl, ◌≢◌, ap, ◌∙◌, sym, none, some, List, [], ◌∷◌, map, Text, text_eq, text_eq_iff,
  text_eq_refl, arith, Bool-cases, Option-cases, inl, inr,
}
use skillex.Registry.Tables.{
  rows_of-delete_rows_ne, rows_of-replace_self, rows_of-replace_ne, delete_rows, insert_rows,
}
use skillex.Registry.Store.{
  Skill, SkillRow, Tables, row_of, scope_value, scope_text, find_row, upsert_rows, delete_skill_row,
  skill_id_by_path, upsert_skill, replace_children, insert_skill, delete_skill_by_path,
  populate_meta, get_skill_by_path,
}
use skillex.Registry.Store.Invariant.{
  IdAbsent, AreUnique, IsWellFormed, id_of_found, below_of_found, ids_differ, none_of_absent,
}

-- The id under which a skill is stored: that of its path, or the next one.
pub stored_id : Tables → Skill → ℕ
stored_id t s = elim (find_row s.path t.skills) [ none ↦ t.next_id | some r ↦ r.id ]

find_row-upsert_self :
    (n : ℕ) (s : Skill) (rows : List SkillRow)
    → find_row s.path (upsert_rows n s rows)
      ≡ some (row_of (elim (find_row s.path rows) [ none ↦ n | some r ↦ r.id ]) s)
unfolding find_row upsert_rows
find_row-upsert_self n s [] = rw text_eq_refl
find_row-upsert_self n s (x ∷ xs) = elim (Bool-cases (text_eq x.path s.path)) [
  | inl h ↦ rw h (rw text_eq_refl)
  | inr h ↦ rw (h, h) (find_row-upsert_self n s xs)
]

find_row-upsert_ne :
    (n : ℕ) (s : Skill) (q : Text) (rows : List SkillRow)
    → s.path ≢ q
    → find_row q (upsert_rows n s rows) ≡ find_row q rows
unfolding find_row upsert_rows
find_row-upsert_ne n s q [] d = ground (arith, text_eq_iff s.path q)
find_row-upsert_ne n s q (x ∷ xs) d = ground (
  arith,
  text_eq_iff s.path q,
  text_eq_iff x.path s.path,
  text_eq_iff x.path q,
  find_row-upsert_ne n s q xs d,
)

delete-absent : (id : ℕ) (rows : List SkillRow) → IdAbsent id rows → delete_skill_row id rows ≡ rows
unfolding delete_skill_row
delete-absent id [] a = refl
delete-absent id (x ∷ xs) a = ground (arith, a.0, delete-absent id xs a.1)

find_row-delete_self :
    (p : Text) (rows : List SkillRow) {r : SkillRow}
    → AreUnique rows
    → find_row p rows ≡ some r
    → find_row p (delete_skill_row r.id rows) ≡ none
unfolding find_row delete_skill_row
find_row-delete_self p [] u f = cc
find_row-delete_self p (x ∷ xs) {r} u f = elim (Bool-cases (text_eq x.path p)) [
  | inl h ↦
      ground (arith, text_eq_iff x.path p, delete-absent x.id xs u.1, none_of_absent x.path xs u.0)
  | inr h ↦
      let f' : find_row p xs ≡ some r = rw h at f in
      ground (arith, id_of_found x.id p xs u.1 f', find_row-delete_self p xs u.2 f')
]

find_row-delete_ne :
    (p q : Text) (rows : List SkillRow) {r : SkillRow}
    → AreUnique rows
    → p ≢ q
    → find_row p rows ≡ some r
    → find_row q (delete_skill_row r.id rows) ≡ find_row q rows
unfolding find_row delete_skill_row
find_row-delete_ne p q [] u d f = cc
find_row-delete_ne p q (x ∷ xs) {r} u d f = elim (Bool-cases (text_eq x.path p)) [
  | inl h ↦ ground (arith, text_eq_iff x.path p, text_eq_iff x.path q, delete-absent x.id xs u.1)
  | inr h ↦
      let f' : find_row p xs ≡ some r = rw h at f in
      ground (arith, id_of_found x.id p xs u.1 f', find_row-delete_ne p q xs u.2 d f')
]

scope_text-scope_value : (scopes : List Text) → map scope_text (map scope_value scopes) ≡ scopes
scope_text-scope_value [] = refl
scope_text-scope_value (x ∷ xs) = ap (λ t. x ∷ t) (scope_text-scope_value xs)

skill_id_by_path-upsert :
    (t : Tables) (s : Skill) → skill_id_by_path (upsert_skill t s) s.path ≡ some (stored_id t s)
unfolding upsert_skill stored_id skill_id_by_path
skill_id_by_path-upsert t s = rw (find_row-upsert_self t.next_id s t.skills, skill_id_by_path)

insert_skill-eq :
    (t : Tables) (s : Skill)
    → insert_skill t s ≡ some (stored_id t s, replace_children (upsert_skill t s) (stored_id t s) s)
insert_skill-eq t s = unfold insert_skill in rw (skill_id_by_path-upsert t s, insert_skill)

get-found :
    (t : Tables) (p : Text) {r : SkillRow}
    → find_row p t.skills ≡ some r
    → get_skill_by_path t p ≡ some (populate_meta t r)
unfolding get_skill_by_path
get-found t p e = rw (e, get_skill_by_path)

get-missing : (t : Tables) (p : Text) → find_row p t.skills ≡ none → get_skill_by_path t p ≡ none
unfolding get_skill_by_path
get-missing t p e = rw (e, get_skill_by_path)

populate_meta-replace_children :
    (t : Tables) (s : Skill) (id : ℕ)
    → populate_meta (replace_children t id s) (row_of id s) ≡ record s { id = id }
unfolding populate_meta replace_children
populate_meta-replace_children t s id = simp (rows_of-replace_self, scope_text-scope_value)

find_row-stored :
    (t : Tables) (s : Skill) (id : ℕ)
    → find_row s.path (replace_children (upsert_skill t s) id s).skills
      ≡ some (row_of (stored_id t s) s)
unfolding replace_children upsert_skill stored_id
find_row-stored t s id = find_row-upsert_self t.next_id s t.skills

find_row-stored_ne :
    (t : Tables) (s : Skill) (id : ℕ) (q : Text)
    → s.path ≢ q
    → find_row q (replace_children (upsert_skill t s) id s).skills ≡ find_row q t.skills
unfolding replace_children upsert_skill
find_row-stored_ne t s id q d = find_row-upsert_ne t.next_id s q t.skills d

-- InsertSkill always succeeds on the tables, and the skill is then read back at its path as it was
-- given, under the id that InsertSkill returns.
pub get_skill_by_path-insert :
    (t : Tables) (s : Skill)
    → (t' : Tables) × (insert_skill t s ≡ some (stored_id t s, t'))
      × (get_skill_by_path t' s.path ≡ some (record s { id = stored_id t s }))
get_skill_by_path-insert t s =
    let t' = replace_children (upsert_skill t s) (stored_id t s) s in
    (
      t',
      insert_skill-eq t s,
      get-found t' s.path (find_row-stored t s (stored_id t s))
          ∙ ap some (populate_meta-replace_children (upsert_skill t s) s (stored_id t s)),
    )

stored_id-ne :
    (t : Tables) (s : Skill) (q : Text) {r : SkillRow}
    → IsWellFormed t
    → s.path ≢ q
    → find_row q t.skills ≡ some r
    → stored_id t s ≢ r.id
unfolding stored_id
stored_id-ne t s q {r} w d f = elim (Option-cases (find_row s.path t.skills)) [
  | inl e ↦
      let below = below_of_found t.next_id q t.skills w.below f in rw (e, stored_id) (omega arith)
  | inr (a, e) ↦ rw (e, stored_id) (ids_differ s.path q t.skills w.unique d e f)
]

populate_meta-replace_ne :
    (t : Tables) (s : Skill) (id : ℕ) (r : SkillRow)
    → id ≢ r.id
    → populate_meta (replace_children (upsert_skill t s) id s) r ≡ populate_meta t r
unfolding populate_meta replace_children upsert_skill
populate_meta-replace_ne t s id r d = rw (
  rows_of-replace_ne id r.id s.topics t.topics d,
  rows_of-replace_ne id r.id s.tags t.tags d,
  rows_of-replace_ne id r.id (map scope_value s.scopes) t.scopes d,
)

-- InsertSkill changes nothing of what is read at another path.
pub get_skill_by_path-insert_ne :
    (t : Tables) (s : Skill) (id : ℕ) (t' : Tables) (q : Text)
    → IsWellFormed t
    → insert_skill t s ≡ some (id, t')
    → s.path ≢ q
    → get_skill_by_path t' q ≡ get_skill_by_path t q
get_skill_by_path-insert_ne t s id t' q w e d =
    let tables : t' ≡ replace_children (upsert_skill t s) (stored_id t s) s =
      cc (insert_skill-eq t s) in
    rw tables (elim (Option-cases (find_row q t.skills)) [
      | inl f ↦
          get-missing (replace_children (upsert_skill t s) (stored_id t s) s) q
            (find_row-stored_ne t s (stored_id t s) q d ∙ f)
          ∙ sym (get-missing t q f)
      | inr (r, f) ↦
          get-found (replace_children (upsert_skill t s) (stored_id t s) s) q
            (find_row-stored_ne t s (stored_id t s) q d ∙ f)
          ∙ ap some (populate_meta-replace_ne t s (stored_id t s) r (stored_id-ne t s q w d f))
          ∙ sym (get-found t q f)
    ])

abbrev without_skill : Tables → ℕ → Tables
without_skill t id = record t {
  search = delete_rows id t.search;
  skills = delete_skill_row id t.skills;
  topics = delete_rows id t.topics;
  tags = delete_rows id t.tags;
  scopes = delete_rows id t.scopes;
  tests = delete_rows id t.tests;
}

delete-found :
    (t : Tables) (p : Text) {r : SkillRow}
    → find_row p t.skills ≡ some r
    → delete_skill_by_path t p ≡ without_skill t r.id
unfolding delete_skill_by_path skill_id_by_path
delete-found t p e = rw (e, delete_skill_by_path, skill_id_by_path)

delete-missing : (t : Tables) (p : Text) → find_row p t.skills ≡ none → delete_skill_by_path t p ≡ t
unfolding delete_skill_by_path skill_id_by_path
delete-missing t p e = rw (e, delete_skill_by_path, skill_id_by_path)

populate_meta-without :
    (t : Tables) (id : ℕ) (r : SkillRow)
    → id ≢ r.id
    → populate_meta (without_skill t id) r ≡ populate_meta t r
unfolding populate_meta
populate_meta-without t id r d = rw (
  rows_of-delete_rows_ne id r.id t.topics d,
  rows_of-delete_rows_ne id r.id t.tags d,
  rows_of-delete_rows_ne id r.id t.scopes d,
)

get-without_ne :
    (t : Tables) (p q : Text) {r : SkillRow}
    → IsWellFormed t
    → find_row p t.skills ≡ some r
    → p ≢ q
    → get_skill_by_path (without_skill t r.id) q ≡ get_skill_by_path t q
get-without_ne t p q {r} w e d = elim (Option-cases (find_row q t.skills)) [
  | inl f ↦
      get-missing (without_skill t r.id) q (find_row-delete_ne p q t.skills w.unique d e ∙ f)
      ∙ sym (get-missing t q f)
  | inr (b, f) ↦
      get-found (without_skill t r.id) q (find_row-delete_ne p q t.skills w.unique d e ∙ f)
      ∙ ap some (populate_meta-without t r.id b (ids_differ p q t.skills w.unique d e f))
      ∙ sym (get-found t q f)
]

-- After DeleteSkillByPath nothing is read at the path.
pub get_skill_by_path-delete_self :
    (t : Tables) (p : Text) → IsWellFormed t → get_skill_by_path (delete_skill_by_path t p) p ≡ none
get_skill_by_path-delete_self t p w = elim (Option-cases (find_row p t.skills)) [
  | inl e ↦ rw (delete-missing t p e) (get-missing t p e)
  | inr (r, e) ↦
      rw (delete-found t p e)
        (get-missing (without_skill t r.id) p (find_row-delete_self p t.skills w.unique e))
]

-- What is read at another path is unchanged by DeleteSkillByPath.
pub get_skill_by_path-delete_ne :
    (t : Tables) (p q : Text)
    → IsWellFormed t
    → p ≢ q
    → get_skill_by_path (delete_skill_by_path t p) q ≡ get_skill_by_path t q
get_skill_by_path-delete_ne t p q w d = elim (Option-cases (find_row p t.skills)) [
  | inl e ↦ rw (delete-missing t p e)
  | inr (r, e) ↦ rw (delete-found t p e) (get-without_ne t p q w e d)
]

-- The scope rows after InsertSkill.
pub insert_skill-scopes :
    (t : Tables) (s : Skill) (id : ℕ) (t' : Tables)
    → insert_skill t s ≡ some (id, t')
    → t'.scopes ≡ insert_rows id (map scope_value s.scopes) (delete_rows id t.scopes)
unfolding replace_children upsert_skill
insert_skill-scopes t s id t' e =
    let whole = insert_skill-eq t s in
    let tables : t' ≡ replace_children (upsert_skill t s) (stored_id t s) s = cc whole in
    let same : stored_id t s ≡ id = cc whole in rw (tables, same)
