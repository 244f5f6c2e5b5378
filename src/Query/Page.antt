-- ===== src/Query/Page.antt =====
-- The pages of Execute in internal/query/query.go: from the cursor, as many as the limit allows.
use skillex.Prelude.{
  ℕ, zero, suc, ◌+◌, ◌-◌, ◌≤◌, ◌<◌, ◌≡◌, refl, ◌∙◌, ap, sym, List, [], ◌∷◌, ◌++◌, length, take,
  drop, length-take, take-append-drop, ltb, ◌==◌, if◌then◌else◌, arith, Bool-cases, inl, inr,
}
use mathlib.Core.List.{append-nil}
use skillex.Capability.Integers.{ℤ, pos, negsuc}

-- The limit of a page: 8 if none is given, and at most 20.
unfoldable pub page_limit : ℤ → ℕ
page_limit (negsuc n) = 8
page_limit (pos n) = let m = if n == 0 then 8 else n in if ltb 20 m then 20 else m

-- if a > b { a = b }
abbrev pub clip : ℕ → ℕ → ℕ
clip a b = if ltb b a then b else a

-- Where the page at a cursor begins and ends, among `count` matches.
unfoldable pub page_start : ℕ → ℕ → ℕ
page_start cursor count = clip cursor count

unfoldable pub page_end : ℕ → ℕ → ℕ → ℕ
page_end cursor limit count = clip (page_start cursor count + limit) count

pub page_end-bounds :
    (cursor limit count : ℕ)
    → (page_start cursor count ≤ page_end cursor limit count)
      × (page_end cursor limit count ≤ count)
      × (page_end cursor limit count ≤ page_start cursor count + limit)
unfolding page_end page_start
page_end-bounds cursor limit count = (ground arith, ground arith, ground arith)

page_end-progress :
    (cursor limit count : ℕ)
    → 0 < limit
    → page_end cursor limit count < count
    → page_start cursor count < page_end cursor limit count
unfolding page_end page_start
page_end-progress cursor limit count h k = ground arith

pub page_limit-bounds : (limit : ℤ) → (0 < page_limit limit) × (page_limit limit ≤ 20)
unfolding page_limit
page_limit-bounds (negsuc n) = omega arith
page_limit-bounds (pos n) = (ground arith, ground arith)

page_start_zero : (count : ℕ) → page_start 0 count ≡ 0
unfolding page_start
page_start_zero count = ground arith

suc_add : (n m : ℕ) → suc (n + m) ≡ suc n + m
suc_add n m = omega arith

module _ {ℓ} {A : Type ℓ} where
  -- skills[cursor.Skills:end]
  unfoldable pub page_of : ℕ → ℕ → List A → List A
  page_of cursor limit xs =
      let start = page_start cursor (length xs) in
      take (page_end cursor limit (length xs) - start) (drop start xs)

  -- What a client reads that follows the cursors from one on, as long as there is a next page.
  unfoldable pub walk : ℕ → ℕ → ℕ → List A → List A
  walk zero cursor limit xs = []
  walk (suc fuel) cursor limit xs =
      let next = page_end cursor limit (length xs) in
      let rest = walk fuel next limit xs in
      if ltb next (length xs) then page_of cursor limit xs ++ rest else page_of cursor limit xs

  drop_nil : (n : ℕ) → ◌≡◌ {A = List A} (drop {A = A} n []) []
  drop_nil zero = refl
  drop_nil (suc n) = refl

  drop-drop : (m n : ℕ) (xs : List A) → drop m (drop n xs) ≡ drop (n + m) xs
  drop-drop m zero xs = ap (λ k. drop k xs) (omega arith)
  drop-drop m (suc n) [] = drop_nil m ∙ sym (drop_nil (suc n + m))
  drop-drop m (suc n) (x ∷ xs) = drop-drop m n xs ∙ ap (λ k. drop k (x ∷ xs)) (suc_add n m)

  take_all : (n : ℕ) (xs : List A) → length xs ≤ n → take n xs ≡ xs
  take_all zero [] h = refl
  take_all zero (x ∷ xs) h = absurd (omega arith)
  take_all (suc n) [] h = refl
  take_all (suc n) (x ∷ xs) h = ap (λ t. x ∷ t) (take_all n xs (omega arith))

  -- A page has no more results than its limit.
  pub length-page_of : (cursor limit : ℕ) (xs : List A) → length (page_of cursor limit xs) ≤ limit
  unfolding page_of
  length-page_of cursor limit xs =
      let start = page_start cursor (length xs) in
      let bounds = page_end-bounds cursor limit (length xs) in
      omega (arith, bounds, length-take (page_end cursor limit (length xs) - start) (drop start xs))

  -- Nor more than there are matches.
  pub length-page_of_all :
      (cursor limit : ℕ) (xs : List A) → length (page_of cursor limit xs) ≤ length xs
  unfolding page_of
  length-page_of_all cursor limit xs =
      let start = page_start cursor (length xs) in
      let bounds = page_end-bounds cursor limit (length xs) in
      omega (arith, bounds, length-take (page_end cursor limit (length xs) - start) (drop start xs))

  page_end-next :
      (cursor limit : ℕ) (xs : List A)
      → page_start (page_end cursor limit (length xs)) (length xs)
        ≡ page_end cursor limit (length xs)
  unfolding page_end page_start
  page_end-next cursor limit xs = ground arith

  page-append-rest :
      (cursor limit : ℕ) (xs : List A)
      → page_of cursor limit xs ++ drop (page_end cursor limit (length xs)) xs
        ≡ drop (page_start cursor (length xs)) xs
  unfolding page_of
  page-append-rest cursor limit xs =
      let start = page_start cursor (length xs) in
      let size = page_end cursor limit (length xs) - start in
      let bounds = page_end-bounds cursor limit (length xs) in
      let next : start + size ≡ page_end cursor limit (length xs) = omega (arith, bounds) in
      ap (λ t. take size (drop start xs) ++ t)
        (sym (drop-drop size start xs ∙ ap (λ k. drop k xs) next))
      ∙ take-append-drop size (drop start xs)

  drop_all : (n : ℕ) (xs : List A) → length xs ≤ n → drop n xs ≡ []
  drop_all zero [] h = refl
  drop_all zero (x ∷ xs) h = absurd (omega arith)
  drop_all (suc n) [] h = refl
  drop_all (suc n) (x ∷ xs) h = drop_all n xs (omega arith)

  walk-drop :
      (fuel cursor limit : ℕ) (xs : List A)
      → 0 < limit
      → length xs < page_start cursor (length xs) + fuel
      → walk fuel cursor limit xs ≡ drop (page_start cursor (length xs)) xs
  unfolding walk
  walk-drop zero cursor limit xs h enough = sym (drop_all _ xs (omega arith))
  walk-drop (suc fuel) cursor limit xs h enough =
      let count = length xs in
      let next = page_end cursor limit count in
      elim (Bool-cases (ltb next count)) [
        | inl more ↦
            let onward = page_end-progress cursor limit count h (ground arith) in
            rw
              (
                more,
                walk-drop fuel next limit xs h
                    (omega (arith, onward, page_end-next cursor limit xs)),
                page_end-next cursor limit xs,
              )
              (page-append-rest cursor limit xs)
        | inr last ↦
            let ended : drop next xs ≡ [] = drop_all next xs (ground arith) in
            rw last (
              sym (append-nil (page_of cursor limit xs))
              ∙ ap (λ t. page_of cursor limit xs ++ t) (sym ended)
              ∙ page-append-rest cursor limit xs)
      ]

  -- A client that starts without a cursor and follows the cursors sees every match exactly once and in
  -- order, in at most one page for each match and one more.
  pub walk_all : (limit : ℤ) (xs : List A) → walk (suc (length xs)) 0 (page_limit limit) xs ≡ xs
  walk_all limit xs =
      let (positive, small) = page_limit-bounds limit in
      walk-drop (suc (length xs)) 0 (page_limit limit) xs positive (omega arith)
      ∙ ap (λ k. drop k xs) (page_start_zero (length xs))
