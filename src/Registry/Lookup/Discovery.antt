-- ===== src/Registry/Lookup/Discovery.antt =====
-- What a lookup by path finds in internal/registry after the writes that built the index.
use skillex.Prelude.{
  ℕ, ◌≡◌, ◌≢◌, refl, ◌∙◌, ap, Bool, false, Option, none, some, List, [], ◌∷◌, map, Text, text_eq,
  text_eq_iff, any, any-sort_by, Option-cases, select, arith, Bool-cases, inl, inr,
}
use skillex.Registry.Path.{normalize}
use skillex.Registry.Store.{
  Skill, SkillRow, Tables, empty, find_row, populate_meta, get_skill_by_path, skill_id_by_path,
  delete_skill_by_path, clear, delete_tests_for_skill,
}
use skillex.Registry.Store.Laws.{stored_id, get_skill_by_path-insert}
use skillex.Registry.Store.Invariant.{PathAbsent, AreUnique, IsWellFormed}
use skillex.Registry.Store.Refinement.{
  Write, insert, delete, clear_all, insert_test, delete_tests, apply, run, run_map, forget_id,
  apply-insert, apply-insert_test, run-IsWellFormed, run-Represents,
}
use skillex.Registry.Lookup.{contains, matched_ids, fetch, path_less, query_by_path}
use skillex.Registry.Lookup.ByPath.{
  covers, AreClassified, AreClassified-delete, insert_skill-AreClassified, contains-matched_ids,
  any-row_matches-covers, normalize-ne,
}

delete-AreClassified :
    (t : Tables) (path : Text)
    → AreClassified t.scopes
    → AreClassified (delete_skill_by_path t path).scopes
unfolding delete_skill_by_path
delete-AreClassified t path c = elim (Option-cases (skill_id_by_path t path)) [
  | inl e ↦ rw (e, delete_skill_by_path) c
  | inr (id, e) ↦ rw (e, delete_skill_by_path) (AreClassified-delete id t.scopes c)
]

apply-AreClassified :
    (w : Write) (t : Tables) → AreClassified t.scopes → AreClassified (apply w t).scopes
unfolding apply delete_tests_for_skill clear
apply-AreClassified (insert s) t c =
    let (t', done, found) = get_skill_by_path-insert t s in
    rw (apply-insert s t done) (insert_skill-AreClassified t s (stored_id t s) t' done c)
apply-AreClassified (delete path) t c = delete-AreClassified t path c
apply-AreClassified clear_all t c = tt
apply-AreClassified (insert_test id v) t c = elim (apply-insert_test id v t) [
  | inl e ↦ rw e c
  | inr (tests, e) ↦ rw e c
]
apply-AreClassified (delete_tests id) t c = c

pub run-AreClassified :
    (ws : List Write) (t : Tables) → AreClassified t.scopes → AreClassified (run ws t).scopes
unfolding run
run-AreClassified [] t c = c
run-AreClassified (w ∷ ws) t c = run-AreClassified ws (apply w t) (apply-AreClassified w t c)

-- No kept row has a path that no row has.
none_kept :
    (q : Text) (ids : List ℕ) (rows : List SkillRow)
    → PathAbsent q rows
    → any (λ r. text_eq r.path q) (select (λ r. contains r.id ids) rows) ≡ false
none_kept q ids [] a = refl
none_kept q ids (x ∷ rows) a = ground (arith, text_eq_iff x.path q, a.0, none_kept q ids rows a.1)

abbrev is_kept : List ℕ → Option SkillRow → Bool
is_kept ids none = false
is_kept ids (some r) = contains r.id ids

kept-find_row :
    (q : Text) (ids : List ℕ) (rows : List SkillRow)
    → AreUnique rows
    → any (λ r. text_eq r.path q) (select (λ r. contains r.id ids) rows)
      ≡ is_kept ids (find_row q rows)
unfolding find_row
kept-find_row q ids [] u = refl
kept-find_row q ids (x ∷ rows) u = elim (Bool-cases (text_eq x.path q)) [
  | inl same ↦
      let e : x.path ≡ q = (text_eq_iff x.path q).0 same in
      ground (arith, same, none_kept q ids rows (rw (← e) u.0))
  | inr other ↦ ground (arith, other, kept-find_row q ids rows u.2)
]

any-populate_path :
    (t : Tables) (q : Text) (rows : List SkillRow)
    → any (λ s. text_eq s.path q) (map (populate_meta t) rows) ≡ any (λ r. text_eq r.path q) rows
unfolding populate_meta
any-populate_path t q [] = refl
any-populate_path t q (r ∷ rows) = ground (arith, any-populate_path t q rows)

-- Whether a skill is there and reaches a path.
abbrev pub reaches : (Text → Option (Text → Bool)) → Text → Option Skill → Bool
reaches compile path none = false
reaches compile path (some s) = any (λ scope. covers compile scope (normalize path)) s.scopes

path_in_query :
    (compile : Text → Option (Text → Bool)) (t : Tables) (path q : Text)
    → path ≢ []
    → IsWellFormed t
    → any (λ s. text_eq s.path q) (query_by_path compile t path)
      ≡ is_kept (matched_ids compile t.scopes (normalize path)) (find_row q t.skills)
path_in_query compile t [] q h f = absurd (h refl)
path_in_query compile t (x ∷ xs) q h f =
    let ids = matched_ids compile t.scopes (normalize (x ∷ xs)) in
    unfold query_by_path fetch in
    any-sort_by path_less (λ s. text_eq s.path q) (fetch t ids)
    ∙ any-populate_path t q (select (λ r. contains r.id ids) t.skills)
    ∙ kept-find_row q ids t.skills f.unique

kept-reaches :
    (compile : Text → Option (Text → Bool)) (t : Tables) (path q : Text)
    → path ≢ []
    → AreClassified t.scopes
    → is_kept (matched_ids compile t.scopes (normalize path)) (find_row q t.skills)
      ≡ reaches compile path (forget_id (get_skill_by_path t q))
unfolding get_skill_by_path populate_meta
kept-reaches compile t path q h c = elim (Option-cases (find_row q t.skills)) [
  | inl e ↦ rw (get_skill_by_path, e) refl
  | inr (r, e) ↦
      rw (get_skill_by_path, e)
        (contains-matched_ids compile t.scopes (normalize path) r.id
          ∙ any-row_matches-covers compile (normalize path) r.id t.scopes (normalize-ne path h) c)
]

-- After any writes to an empty index, QueryByPath finds a skill exactly if, after the same writes to a
-- plain map from paths to skills, the map holds it under its path and one of its scopes covers the
-- path that was asked for.
pub query_by_path-run :
    (compile : Text → Option (Text → Bool)) (ws : List Write) (path q : Text)
    → path ≢ []
    → any (λ s. text_eq s.path q) (query_by_path compile (run ws empty) path)
      ≡ reaches compile path (run_map ws (λ p. none) q)
query_by_path-run compile ws path q h =
    let t = run ws empty in
    let formed = run-IsWellFormed ws empty (record { unique = tt; below = tt }) in
    path_in_query compile t path q h formed
    ∙ kept-reaches compile t path q h (run-AreClassified ws empty tt)
    ∙ ap (reaches compile path) (
        run-Represents ws empty (λ p. none) (record { unique = tt; below = tt })
          (λ p. unfold get_skill_by_path find_row in refl) q)
