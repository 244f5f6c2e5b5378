-- ===== src/Registry/Lookup/ByPath.antt =====
-- Which skills QueryByPath of internal/registry/path.go finds.
use skillex.Prelude.{
  ℕ, ◌-◌, ◌≡◌, refl, ◌≢◌, ap, ◌∙◌, Bool, true, false, ◌&&◌, ◌||◌, not, Option, none, some, List, [],
  ◌∷◌, ◌++◌, map, Text, codes, text_eq, text_eq_iff, has_prefix, has_suffix, contains_any,
  index_any, elem, length, take, ◌==◌, select, any, any-sort_by, if◌then◌else◌, arith, Bool-cases,
  ==_iff, inl, inr,
}
use skillex.Registry.Path.{
  slash, wildcards, normalize, classify_scope, classify_wild, path_prefixes, glob_match_path,
}
use skillex.Registry.Path.Prefixes.{ends_in_slash, elem-path_prefixes}
use skillex.Registry.Tables.{Row, rows_of, delete_rows, insert_rows}
use skillex.Registry.Store.{
  Skill, SkillRow, ScopeValue, Tables, populate_meta, scope_value, scope_text, insert_skill,
}
use skillex.Registry.Store.Laws.{insert_skill-scopes}
use skillex.Registry.Lookup.{
  contains, is_universal, is_indexed, is_glob, ids_where, glob_loop, matched_ids, fetch, path_less,
  query_by_path,
}

-- Which paths a scope covers: all, itself, those below its base, or those that its glob matches.
unfoldable pub covers : (Text → Option (Text → Bool)) → Text → Text → Bool
covers compile scope path =
    let norm = normalize scope in
    let base = take (length norm - 3) norm in
    if text_eq norm (codes "**")
    then true
    else if not (contains_any norm (codes "*?"))
    then text_eq norm path || (ends_in_slash norm && has_prefix path norm)
    else if has_suffix norm (codes "/**") && not (contains_any base (codes "*?"))
    then has_prefix path (base ++ slash ∷ [])
    else glob_match_path compile scope path

-- What a stored row decides for a path.
pub row_matches : (Text → Option (Text → Bool)) → Text → ScopeValue → Bool
row_matches compile path v =
    is_universal v.pattern_type
    || ((is_indexed v.pattern_type && elem v.path_prefix (path_prefixes path))
        || (is_glob v.pattern_type && glob_match_path compile v.scope path))

contains-append :
    (id : ℕ) (xs ys : List ℕ) → contains id (xs ++ ys) ≡ (contains id xs || contains id ys)
contains-append id [] ys = refl
contains-append id (x ∷ xs) ys = ground (arith, contains-append id xs ys)

contains-ids_where {ℓ} :
    {A : Type ℓ} (p : A → Bool) (id : ℕ) (rows : List (Row A))
    → contains id (ids_where p rows) ≡ any p (rows_of id rows)
unfolding ids_where rows_of
contains-ids_where p id [] = refl
contains-ids_where p id ((j, a) ∷ rows) = ground (arith, contains-ids_where p id rows)

contains-eq : (i j : ℕ) (ids : List ℕ) → (i == j) ≡ true → contains i ids ≡ contains j ids
contains-eq i j ids h = ap (λ k. contains k ids) ((==_iff i j).0 h)

contains-glob_loop :
    (compile : Text → Option (Text → Bool)) (path : Text) (id : ℕ) (rows : List (Row ScopeValue))
    (ids : List ℕ)
    → contains id (glob_loop compile path rows ids) ≡ (
        contains id ids
        || any
            (λ v. is_glob v.pattern_type && glob_match_path compile v.scope path)
            (rows_of id rows))
unfolding glob_loop rows_of
contains-glob_loop compile path id [] ids = ground arith
contains-glob_loop compile path id ((j, v) ∷ rows) ids =
    let taken =
      is_glob v.pattern_type && (not (contains j ids) && glob_match_path compile v.scope path) in
    ground (
      arith,
      contains-eq j id ids,
      contains-glob_loop compile path id rows (if taken then j ∷ ids else ids),
    )

any-row_matches :
    (compile : Text → Option (Text → Bool)) (path : Text) (vs : List ScopeValue)
    → any (row_matches compile path) vs ≡ (
        any (λ v. is_universal v.pattern_type) vs
        || (any (λ v. is_indexed v.pattern_type && elem v.path_prefix (path_prefixes path)) vs
            || any (λ v. is_glob v.pattern_type && glob_match_path compile v.scope path) vs))
unfolding row_matches
any-row_matches compile path [] = refl
any-row_matches compile path (v ∷ vs) = ground (arith, any-row_matches compile path vs)

pub contains-matched_ids :
    (compile : Text → Option (Text → Bool)) (rows : List (Row ScopeValue)) (path : Text) (id : ℕ)
    → contains id (matched_ids compile rows path) ≡ any (row_matches compile path) (rows_of id rows)
unfolding matched_ids
contains-matched_ids compile rows path id = ground (
  arith,
  contains-glob_loop compile path id rows (
      ids_where (λ v. is_universal v.pattern_type) rows
      ++ ids_where (λ v. is_indexed v.pattern_type && elem v.path_prefix (path_prefixes path))
          rows),
  contains-append id (ids_where (λ v. is_universal v.pattern_type) rows)
      (ids_where (λ v. is_indexed v.pattern_type && elem v.path_prefix (path_prefixes path)) rows),
  contains-ids_where (λ v. is_universal v.pattern_type) id rows,
  contains-ids_where (λ v. is_indexed v.pattern_type && elem v.path_prefix (path_prefixes path)) id
      rows,
  any-row_matches compile path (rows_of id rows),
)

ends_in_slash-append : (s : Text) → ends_in_slash (s ++ slash ∷ []) ≡ true
ends_in_slash-append [] = refl
ends_in_slash-append (c ∷ []) = refl
ends_in_slash-append (c ∷ d ∷ s) = ends_in_slash-append (d ∷ s)

has_prefix_self : (s : Text) → has_prefix s s ≡ true
unfolding has_prefix
has_prefix_self [] = refl
has_prefix_self (c ∷ s) = ground (arith, has_prefix_self s)

contains_any-index_any :
    (s set : Text) → contains_any s set ≡ elim (index_any s set) [ none ↦ false | some i ↦ true ]
unfolding contains_any index_any
contains_any-index_any [] set = refl
contains_any-index_any (c ∷ s) set = ground (arith, contains_any-index_any s set)

elem-directory :
    (base path : Text)
    → path ≢ []
    → elem (base ++ slash ∷ []) (path_prefixes path) ≡ has_prefix path (base ++ slash ∷ [])
elem-directory base path h =
    elem-path_prefixes (base ++ slash ∷ []) path h
    ∙ ground (
      arith,
      ends_in_slash-append base,
      text_eq_iff (base ++ slash ∷ []) path,
      has_prefix_self path,
    )

-- The row that InsertSkill stores for a scope matches a path exactly when the scope covers it.
row_matches-covers :
    (compile : Text → Option (Text → Bool)) (scope path : Text)
    → path ≢ []
    → row_matches compile path (scope_value scope) ≡ covers compile scope path
unfolding row_matches covers classify_scope classify_wild
row_matches-covers compile scope path h =
    let norm = normalize scope in
    let base = take (length norm - 3) norm in
    ground (
      arith,
      contains_any-index_any norm wildcards,
      elem-directory base path h,
      elem-path_prefixes norm path h,
    )

-- Every scope row is one that InsertSkill stores for its scope.
abbrev pub AreClassified : List (Row ScopeValue) → Type 0
AreClassified [] = Unit
AreClassified ((j, v) ∷ rows) = (v ≡ scope_value v.scope) × AreClassified rows

pub any-row_matches-covers :
    (compile : Text → Option (Text → Bool)) (path : Text) (id : ℕ) (rows : List (Row ScopeValue))
    → path ≢ []
    → AreClassified rows
    → any (row_matches compile path) (rows_of id rows)
      ≡ any (λ s. covers compile s path) (map scope_text (rows_of id rows))
unfolding rows_of
any-row_matches-covers compile path id [] h c = refl
any-row_matches-covers compile path id ((j, v) ∷ rows) h c =
    let head = ap (row_matches compile path) c.0 ∙ row_matches-covers compile v.scope path h in
    ground (arith, head, any-row_matches-covers compile path id rows h c.1)

any-select-ids :
    (id : ℕ) (ids : List ℕ) (rows : List SkillRow)
    → any (λ r. r.id == id) (select (λ r. contains r.id ids) rows)
      ≡ (any (λ r. r.id == id) rows && contains id ids)
any-select-ids id ids [] = refl
any-select-ids id ids (r ∷ rows) =
    ground (arith, contains-eq r.id id ids, any-select-ids id ids rows)

any-populate :
    (t : Tables) (id : ℕ) (rows : List SkillRow)
    → any (λ s. s.id == id) (map (populate_meta t) rows) ≡ any (λ r. r.id == id) rows
unfolding populate_meta
any-populate t id [] = refl
any-populate t id (r ∷ rows) = ground (arith, any-populate t id rows)

pub any-fetch :
    (t : Tables) (ids : List ℕ) (id : ℕ)
    → any (λ s. s.id == id) (fetch t ids) ≡ (any (λ r. r.id == id) t.skills && contains id ids)
unfolding fetch
any-fetch t ids id =
    any-populate t id (select (λ r. contains r.id ids) t.skills) ∙ any-select-ids id ids t.skills

pub normalize-ne : (path : Text) → path ≢ [] → normalize path ≢ []
unfolding normalize
normalize-ne [] h = h
normalize-ne (c ∷ s) h = λ e. cc

-- QueryByPath finds the skills of the table that have a scope which covers the normalised path, and
-- no others, whenever the scope rows are those that InsertSkill stores.
pub query_by_path-covers :
    (compile : Text → Option (Text → Bool)) (t : Tables) (path : Text) (id : ℕ)
    → path ≢ []
    → AreClassified t.scopes
    → any (λ s. s.id == id) (query_by_path compile t path) ≡ (
        any (λ r. r.id == id) t.skills
        && any (λ s. covers compile s (normalize path)) (map scope_text (rows_of id t.scopes)))
query_by_path-covers compile t [] id h c = absurd (h refl)
query_by_path-covers compile t (x ∷ xs) id h c =
    let path = normalize (x ∷ xs) in
    let ids = matched_ids compile t.scopes path in
    unfold query_by_path in
    any-sort_by path_less (λ s. s.id == id) (fetch t ids)
    ∙ any-fetch t ids id
    ∙ ap (λ b. any (λ r. r.id == id) t.skills && b)
        (contains-matched_ids compile t.scopes path id
          ∙ any-row_matches-covers compile path id t.scopes (normalize-ne (x ∷ xs) h) c)

AreClassified-append :
    (xs ys : List (Row ScopeValue)) → AreClassified xs → AreClassified ys → AreClassified (xs ++ ys)
AreClassified-append [] ys a b = b
AreClassified-append ((j, v) ∷ xs) ys a b = (a.0, AreClassified-append xs ys a.1 b)

pub AreClassified-delete :
    (id : ℕ) (rows : List (Row ScopeValue))
    → AreClassified rows
    → AreClassified (delete_rows id rows)
unfolding delete_rows
AreClassified-delete id [] a = tt
AreClassified-delete id ((j, v) ∷ rows) a = elim (Bool-cases (j == id)) [
  | inl h ↦ rw h (AreClassified-delete id rows a.1)
  | inr h ↦ rw h (a.0, AreClassified-delete id rows a.1)
]

AreClassified-own :
    (id : ℕ) (scopes : List Text) → AreClassified (map (λ x. (id, x)) (map scope_value scopes))
AreClassified-own id [] = tt
AreClassified-own id (s ∷ scopes) = (refl, AreClassified-own id scopes)

-- InsertSkill stores its scopes as QueryByPath reads them, and leaves the other rows so.
pub insert_skill-AreClassified :
    (t : Tables) (s : Skill) (id : ℕ) (t' : Tables)
    → insert_skill t s ≡ some (id, t')
    → AreClassified t.scopes
    → AreClassified t'.scopes
insert_skill-AreClassified t s id t' e c = rw (insert_skill-scopes t s id t' e) (
    unfold insert_rows in
    AreClassified-append (delete_rows id t.scopes) (map (λ x. (id, x)) (map scope_value s.scopes))
      (AreClassified-delete id t.scopes c) (AreClassified-own id s.scopes))
