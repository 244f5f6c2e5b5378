-- ===== src/Registry/Lookup/HasAll.antt =====
-- The test on topics and tags of internal/registry/registry.go, which counts distinct values.
use skillex.Prelude.{
  suc, ◌≤◌, ◌≡◌, refl, ◌∙◌, ap, Bool, true, false, ◌&&◌, not, List, [], ◌∷◌, Text, text_eq,
  text_eq_iff, text_eq_refl, elem, is_unique, select, length, ◌==◌, arith, Bool-cases, inl, inr,
}
use skillex.Registry.Lookup.{distinct, has_all}

unfoldable pub all_in : List Text → List Text → Bool
all_in [] own = true
all_in (x ∷ xs) own = elem x own && all_in xs own

abbrev remove : Text → List Text → List Text
remove x xs = select (λ y. not (text_eq y x)) xs

elem-select :
    (p : Text → Bool) (z : Text) (xs : List Text) → elem z (select p xs) ≡ (elem z xs && p z)
unfolding elem
elem-select p z [] = refl
elem-select p z (x ∷ xs) = elim (Bool-cases (text_eq z x)) [
  | inl same ↦
      let e : z ≡ x = (text_eq_iff z x).0 same in
      ground (arith, e, same, text_eq_refl x, elem-select p z xs)
  | inr other ↦ ground (arith, other, elem-select p z xs)
]

select-is_unique :
    (p : Text → Bool) (xs : List Text) → is_unique xs ≡ true → is_unique (select p xs) ≡ true
unfolding is_unique
select-is_unique p [] h = refl
select-is_unique p (x ∷ xs) h = ground (arith, elem-select p x xs, select-is_unique p xs)

remove_absent : (x : Text) (xs : List Text) → elem x xs ≡ false → remove x xs ≡ xs
unfolding elem
remove_absent x [] h = refl
remove_absent x (y ∷ xs) h = ground (arith, text_eq_iff x y, text_eq_iff y x, remove_absent x xs)

length-remove :
    (x : Text) (xs : List Text)
    → is_unique xs ≡ true
    → elem x xs ≡ true
    → length xs ≡ suc (length (remove x xs))
unfolding is_unique elem
length-remove x [] u h = cc
length-remove x (y ∷ xs) u h = elim (Bool-cases (text_eq y x)) [
  | inl same ↦
      let e : y ≡ x = (text_eq_iff y x).0 same in
      ground (arith, e, same, text_eq_refl x, remove_absent x xs)
  | inr other ↦ ground (arith, other, text_eq_iff x y, text_eq_iff y x, length-remove x xs)
]

distinct-is_unique : (xs : List Text) → is_unique (distinct xs) ≡ true
unfolding distinct is_unique
distinct-is_unique [] = refl
distinct-is_unique (x ∷ xs) = ground (arith, distinct-is_unique xs)

elem-distinct : (z : Text) (xs : List Text) → elem z (distinct xs) ≡ elem z xs
unfolding distinct elem
elem-distinct z [] = refl
elem-distinct z (x ∷ xs) = elim (Bool-cases (text_eq z x)) [
  | inl same ↦
      let e : z ≡ x = (text_eq_iff z x).0 same in
      ground (arith, e, same, text_eq_refl x, elem-distinct x xs)
  | inr other ↦ ground (arith, other, elem-distinct z xs)
]

elem_rest :
    (x : Text) (xs ys : List Text) (z : Text)
    → elem x xs ≡ false
    → elem z (x ∷ xs) ≡ elem z ys
    → elem z xs ≡ elem z (remove x ys)
unfolding elem
elem_rest x xs ys z fresh h = elim (Bool-cases (text_eq z x)) [
  | inl same ↦
      let e : z ≡ x = (text_eq_iff z x).0 same in
      ground (arith, e, same, text_eq_refl x, elem-select (λ y. not (text_eq y x)) z ys)
  | inr other ↦ ground (arith, other, elem-select (λ y. not (text_eq y x)) z ys)
]

-- Two lists without repetition that have the same values have the same length.
length_of_members :
    (xs ys : List Text)
    → is_unique xs ≡ true
    → is_unique ys ≡ true
    → ((z : Text) → elem z xs ≡ elem z ys)
    → length xs ≡ length ys
unfolding is_unique elem
length_of_members [] [] u v h = refl
length_of_members [] (y ∷ ys) u v h = absurd (ground (arith, h y, text_eq_refl y))
length_of_members (x ∷ xs) ys u v h =
    let present : elem x ys ≡ true = ground (arith, h x, text_eq_refl x) in
    let rest =
      length_of_members xs (remove x ys) (ground arith)
        (select-is_unique (λ y. not (text_eq y x)) ys v)
        (λ z. elem_rest x xs ys z (ground arith) (h z)) in
    omega (arith, rest, length-remove x ys v present)

length-select_le : (p : Text → Bool) (xs : List Text) → length (select p xs) ≤ length xs
length-select_le p [] = omega arith
length-select_le p (x ∷ xs) = ground (arith, length-select_le p xs)

length-select-all_in :
    (own asked : List Text)
    → (length (select (λ x. elem x own) asked) == length asked) ≡ all_in asked own
unfolding all_in
length-select-all_in own [] = refl
length-select-all_in own (x ∷ asked) =
    ground (arith, length-select_le (λ y. elem y own) asked, length-select-all_in own asked)

-- A skill passes a filter by topics or tags, none of them asked for twice, exactly if it has them all.
pub has_all-all_in :
    (asked own : List Text) → is_unique asked ≡ true → has_all asked own ≡ all_in asked own
unfolding has_all
has_all-all_in asked own u =
    let found = select (λ x. elem x asked) own in
    let kept = select (λ x. elem x own) asked in
    let same : length (distinct found) ≡ length kept =
      length_of_members (distinct found) kept (distinct-is_unique found)
        (select-is_unique (λ x. elem x own) asked u)
        (λ z.
          elem-distinct z found
          ∙ ground (
            arith,
            elem-select (λ x. elem x asked) z own,
            elem-select (λ x. elem x own) z asked,
          )) in
    ap (λ n. n == length asked) same ∙ length-select-all_in own asked
