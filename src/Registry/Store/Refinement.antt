-- ===== src/Registry/Store/Refinement.antt =====
-- The writes of internal/registry/registry.go as a whole: any sequence of them on the tables does what
-- it does on a plain map from paths to skills. Ids, which the map has none of, read as 0.
use skillex.Prelude.{
  ℕ, ◌≡◌, ◌≢◌, refl, ◌∙◌, ap, Option, none, some, List, [], ◌∷◌, Text, text_eq, text_eq_iff,
  if◌then◌else◌, arith, any, ◌==◌, ◌⊎◌, Bool-cases, inl, inr,
}
use skillex.Registry.Tables.{Row, insert_rows}
use skillex.Registry.Store.{
  Skill, Tables, TestValue, clear, insert_skill, delete_skill_by_path, get_skill_by_path,
  delete_tests_for_skill, insert_test_scenario, find_row, populate_meta,
}
use skillex.Registry.Store.Laws.{
  stored_id, get_skill_by_path-insert, get_skill_by_path-insert_ne, get_skill_by_path-delete_self,
  get_skill_by_path-delete_ne,
}
use skillex.Registry.Store.Invariant.{
  IsWellFormed, insert_skill-IsWellFormed, delete_skill_by_path-IsWellFormed,
}

-- A write of the registry.
pub data Write : Type 0 where
  insert : Skill → Write
  delete : Text → Write
  clear_all : Write
  insert_test : ℕ → TestValue → Write
  delete_tests : ℕ → Write

-- A write that fails is rolled back.
unfoldable pub apply : Write → Tables → Tables
apply (insert s) t = elim (insert_skill t s) [ none ↦ t | some (id, t') ↦ t' ]
apply (delete path) t = delete_skill_by_path t path
apply clear_all t = clear t
apply (insert_test id v) t = elim (insert_test_scenario t id v) [ none ↦ t | some t' ↦ t' ]
apply (delete_tests id) t = delete_tests_for_skill t id

unfoldable pub run : List Write → Tables → Tables
run [] t = t
run (w ∷ ws) t = run ws (apply w t)

abbrev pub anonymous : Skill → Skill
anonymous s = record s { id = 0 }

abbrev pub forget_id : Option Skill → Option Skill
forget_id none = none
forget_id (some s) = some (anonymous s)

-- What the map does.
unfoldable pub specify : Write → (Text → Option Skill) → Text → Option Skill
specify (insert s) m p = if text_eq s.path p then some (anonymous s) else m p
specify (delete path) m p = if text_eq path p then none else m p
specify clear_all m p = none
specify (insert_test id v) m p = m p
specify (delete_tests id) m p = m p

unfoldable pub run_map : List Write → (Text → Option Skill) → Text → Option Skill
run_map [] m = m
run_map (w ∷ ws) m = run_map ws (specify w m)

-- The tables read as a map.
abbrev pub Represents : Tables → (Text → Option Skill) → Type 0
Represents t m = (p : Text) → forget_id (get_skill_by_path t p) ≡ m p

clear-IsWellFormed : (t : Tables) → IsWellFormed (clear t)
unfolding clear
clear-IsWellFormed t = record { unique = tt; below = tt }

pub apply-insert :
    (s : Skill) (t : Tables) {id : ℕ} {t' : Tables}
    → insert_skill t s ≡ some (id, t')
    → apply (insert s) t ≡ t'
unfolding apply
apply-insert s t done = ground arith

-- Of the tables, a test of a skill changes only that of the tests.
pub apply-insert_test :
    (id : ℕ) (v : TestValue) (t : Tables)
    → (apply (insert_test id v) t ≡ t)
      ⊎ ((tests : List (Row TestValue)) × (apply (insert_test id v) t ≡ record t { tests = tests }))
unfolding apply insert_test_scenario
apply-insert_test id v t = elim (Bool-cases (any (λ r. r.id == id) t.skills)) [
  | inl h ↦ inr (insert_rows id (v ∷ []) t.tests, rw (h, apply) refl)
  | inr h ↦ inl (rw (h, apply) refl)
]

pub apply-IsWellFormed : (w : Write) (t : Tables) → IsWellFormed t → IsWellFormed (apply w t)
unfolding delete_tests_for_skill apply
apply-IsWellFormed (insert s) t f =
    let (t', done, found) = get_skill_by_path-insert t s in
    rw (apply-insert s t done) (insert_skill-IsWellFormed t s (stored_id t s) t' f done)
apply-IsWellFormed (delete path) t f = delete_skill_by_path-IsWellFormed t path f
apply-IsWellFormed clear_all t f = clear-IsWellFormed t
apply-IsWellFormed (insert_test id v) t f = elim (apply-insert_test id v t) [
  | inl e ↦ rw e f
  | inr (tests, e) ↦ rw e (record { unique = f.unique; below = f.below })
]
apply-IsWellFormed (delete_tests id) t f = record { unique = f.unique; below = f.below }

insert-Represents :
    (s : Skill) (t : Tables) (m : Text → Option Skill)
    → IsWellFormed t
    → Represents t m
    → Represents (apply (insert s) t) (specify (insert s) m)
unfolding specify
insert-Represents s t m f r p =
    let (t', done, found) = get_skill_by_path-insert t s in
    rw (apply-insert s t done) (elim (Bool-cases (text_eq s.path p)) [
      | inl same ↦
          let e : s.path ≡ p = (text_eq_iff s.path p).0 same in rw (same, ← e) (ap forget_id found)
      | inr other ↦
          let d : s.path ≢ p = λ e. ground (arith, text_eq_iff s.path p) in
          rw other
            (ap forget_id (get_skill_by_path-insert_ne t s (stored_id t s) t' p f done d) ∙ r p)
    ])

delete-Represents :
    (path : Text) (t : Tables) (m : Text → Option Skill)
    → IsWellFormed t
    → Represents t m
    → Represents (apply (delete path) t) (specify (delete path) m)
unfolding apply specify
delete-Represents path t m f r p = elim (Bool-cases (text_eq path p)) [
  | inl same ↦
      let e : path ≡ p = (text_eq_iff path p).0 same in
      rw (same, ← e) (ap forget_id (get_skill_by_path-delete_self t path f))
  | inr other ↦
      let d : path ≢ p = λ e. ground (arith, text_eq_iff path p) in
      rw other (ap forget_id (get_skill_by_path-delete_ne t path p f d) ∙ r p)
]

apply-Represents :
    (w : Write) (t : Tables) (m : Text → Option Skill)
    → IsWellFormed t
    → Represents t m
    → Represents (apply w t) (specify w m)
apply-Represents (insert s) t m f r = insert-Represents s t m f r
apply-Represents (delete path) t m f r = delete-Represents path t m f r
apply-Represents clear_all t m f r =
    λ p. unfold apply specify clear get_skill_by_path find_row in refl
apply-Represents (insert_test id v) t m f r = λ p. elim (apply-insert_test id v t) [
  | inl e ↦ rw e (unfold specify in r p)
  | inr (tests, e) ↦ rw e (unfold specify get_skill_by_path populate_meta in r p)
]
apply-Represents (delete_tests id) t m f r =
    λ p. unfold apply specify delete_tests_for_skill get_skill_by_path populate_meta in r p

-- Whatever is written, in whatever order, ids and paths of the skills stay unique and ids stay below the
-- next one to be given out.
pub run-IsWellFormed : (ws : List Write) (t : Tables) → IsWellFormed t → IsWellFormed (run ws t)
unfolding run
run-IsWellFormed [] t f = f
run-IsWellFormed (w ∷ ws) t f = run-IsWellFormed ws (apply w t) (apply-IsWellFormed w t f)

-- After any writes, in any order, the tables hold at every path what a map holds after the same writes,
-- whatever well-formed tables they started from.
pub run-Represents :
    (ws : List Write) (t : Tables) (m : Text → Option Skill)
    → IsWellFormed t
    → ((p : Text) → forget_id (get_skill_by_path t p) ≡ m p)
    → (p : Text) → forget_id (get_skill_by_path (run ws t) p) ≡ run_map ws m p
unfolding run run_map
run-Represents [] t m f r = r
run-Represents (w ∷ ws) t m f r =
    run-Represents ws (apply w t) (specify w m) (apply-IsWellFormed w t f)
      (apply-Represents w t m f r)
