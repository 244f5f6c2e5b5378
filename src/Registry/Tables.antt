-- ===== src/Registry/Tables.antt =====
-- The rows that hang on a skill (`skill_topics`, `skill_tags`, `skill_scopes`, `skill_search` and
-- `skill_tests` of internal/registry/registry.go), and the SQL statements on them.
use mathlib.Core.List.{append-nil}
use skillex.Prelude.{
  ℕ, ◌≡◌, refl, ◌∙◌, ◌≢◌, List, [], ◌∷◌, ◌++◌, map, ◌==◌, if◌then◌else◌, arith, Bool-cases, inl,
  inr,
}

-- A row is the id of its skill beside what it says.
abbrev pub Row {ℓ} : Type ℓ → Type ℓ
Row A = ℕ × A

module _ {ℓ} {A : Type ℓ} where
  -- SELECT … WHERE skill_id = ?
  unfoldable pub rows_of : ℕ → List (Row A) → List A
  rows_of id [] = []
  rows_of id ((j, a) ∷ rows) = let rest = rows_of id rows in if j == id then a ∷ rest else rest

  -- DELETE … WHERE skill_id = ?
  unfoldable pub delete_rows : ℕ → List (Row A) → List (Row A)
  delete_rows id [] = []
  delete_rows id ((j, a) ∷ rows) =
      let rest = delete_rows id rows in if j == id then rest else (j, a) ∷ rest

  -- INSERT … for each item, in order
  unfoldable pub insert_rows : ℕ → List A → List (Row A) → List (Row A)
  insert_rows id xs rows = rows ++ map (λ x. (id, x)) xs

  pub rows_of-delete_rows :
      (id j : ℕ) (rows : List (Row A))
      → rows_of j (delete_rows id rows) ≡ (if id == j then [] else rows_of j rows)
  unfolding rows_of delete_rows
  rows_of-delete_rows id j [] = ground arith
  rows_of-delete_rows id j ((i, a) ∷ rows) = ground (arith, rows_of-delete_rows id j rows)

  rows_of-append :
      (j : ℕ) (xs ys : List (Row A)) → rows_of j (xs ++ ys) ≡ rows_of j xs ++ rows_of j ys
  unfolding rows_of
  rows_of-append j [] ys = refl
  rows_of-append j ((i, a) ∷ xs) ys = ground (arith, rows_of-append j xs ys)

  rows_of-own :
      (id j : ℕ) (xs : List A) → rows_of j (map (λ x. (id, x)) xs) ≡ (if id == j then xs else [])
  unfolding rows_of
  rows_of-own id j [] = ground arith
  rows_of-own id j (x ∷ xs) = ground (arith, rows_of-own id j xs)

  -- The rows of a skill, after those of another or of its own are replaced.
  pub rows_of-replace :
      (id j : ℕ) (xs : List A) (rows : List (Row A))
      → rows_of j (insert_rows id xs (delete_rows id rows))
        ≡ (if id == j then xs else rows_of j rows)
  unfolding insert_rows
  rows_of-replace id j xs rows =
      rw
        (
          rows_of-append j (delete_rows id rows) (map (λ x. (id, x)) xs),
          rows_of-delete_rows id j rows,
          rows_of-own id j xs,
        )
        (elim (Bool-cases (id == j)) [ inl h ↦ rw h | inr h ↦ rw (h, append-nil) ])

  pub rows_of-replace_self :
      (id : ℕ) (xs : List A) (rows : List (Row A))
      → rows_of id (insert_rows id xs (delete_rows id rows)) ≡ xs
  rows_of-replace_self id xs rows = rows_of-replace id id xs rows ∙ ground arith

  pub rows_of-replace_ne :
      (id j : ℕ) (xs : List A) (rows : List (Row A))
      → id ≢ j
      → rows_of j (insert_rows id xs (delete_rows id rows)) ≡ rows_of j rows
  rows_of-replace_ne id j xs rows d = rows_of-replace id j xs rows ∙ ground arith

  pub rows_of-delete_rows_ne :
      (id j : ℕ) (rows : List (Row A)) → id ≢ j → rows_of j (delete_rows id rows) ≡ rows_of j rows
  rows_of-delete_rows_ne id j rows d = rows_of-delete_rows id j rows ∙ ground arith
