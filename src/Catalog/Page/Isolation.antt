-- ===== src/Catalog/Page/Isolation.antt =====
-- Which records a page of internal/registry/capability.go holds, and how many.
use skillex.Prelude.{
  ℕ, zero, suc, ◌-◌, ◌==◌, ◌≡◌, refl, ◌∙◌, ap, Bool, true, false, ◌||◌, not, Option, some, List, [],
  ◌∷◌, map, Text, length, take, drop, select, any, sort_by, any-sort_by, length-sort_by,
  length-take, length-drop, min, leb, if◌then◌else◌, arith, Bool-cases, inl, inr,
}
use skillex.Capability.Integers.{pos}
use skillex.Catalog.Types.{CatalogTables}
use skillex.Catalog.Rows.{Joined, join_rows, hydrate, query_capabilities}
use skillex.Catalog.Resolve.{is_visible}
use skillex.Catalog.Page.{
  Sql, CapabilityQuery, CapabilityPage, search_tokens, query_fits, row_less, limited, selected_rows,
  page_from, query_capability_page,
}

any-take :
    {A : Type 0} (p : A → Bool) (n : ℕ) (xs : List A) → any p xs ≡ false → any p (take n xs) ≡ false
any-take p zero xs h = refl
any-take p (suc n) [] h = refl
any-take p (suc n) (x ∷ xs) h = ground (arith, any-take p n xs)

any-drop :
    {A : Type 0} (p : A → Bool) (n : ℕ) (xs : List A) → any p xs ≡ false → any p (drop n xs) ≡ false
any-drop p zero xs h = h
any-drop p (suc n) [] h = refl
any-drop p (suc n) (x ∷ xs) h = any-drop p n xs (ground arith)

length-map : {A B : Type 0} (f : A → B) (xs : List A) → length (map f xs) ≡ length xs
length-map f [] = refl
length-map f (x ∷ xs) = ground (arith, length-map f xs)

any-map :
    {A B : Type 0} (p : B → Bool) (f : A → B) (xs : List A)
    → any p (map f xs) ≡ any (λ x. p (f x)) xs
any-map p f [] = refl
any-map p f (x ∷ xs) = ground (arith, any-map p f xs)

-- What every row that is selected satisfies.
none_selected :
    {A : Type 0} (p q : A → Bool) (xs : List A)
    → ((x : A) → q x ≡ true → p x ≡ false)
    → any p (select q xs) ≡ false
none_selected p q [] h = refl
none_selected p q (x ∷ xs) h = ground (arith, h x, none_selected p q xs h)

any-limited :
    {A : Type 0} (sql : Sql) (compile : Text → Option (Text → Bool)) (p : A → Bool)
    (limit offset : ℕ) (xs : List A)
    → any p xs ≡ false
    → any p (limited sql compile limit offset xs) ≡ false
any-limited sql compile p limit offset xs h = elim (Bool-cases (limit == 0)) [
  | inl e ↦ rw e (any-drop p offset xs h)
  | inr e ↦ rw e (any-take p limit (drop offset xs) (any-drop p offset xs h))
]

-- The number of records from an offset on.
abbrev pub page_size : ℕ → ℕ → ℕ → ℕ
page_size limit offset count = if limit == 0 then count - offset else min limit (count - offset)

length-limited :
    {A : Type 0} (sql : Sql) (compile : Text → Option (Text → Bool)) (limit offset : ℕ)
    (xs : List A)
    → length (limited sql compile limit offset xs) ≡ page_size limit offset (length xs)
length-limited sql compile limit offset xs = elim (Bool-cases (limit == 0)) [
  | inl e ↦ rw e (length-drop offset xs)
  | inr e ↦ rw e (length-take limit (drop offset xs) ∙ ap (min limit) (length-drop offset xs))
]

module _ (sql : Sql) (compile : Text → Option (Text → Bool)) (t : CatalogTables) (now : ℕ)
    (q : CapabilityQuery) where
  -- A view that the query may not read.
  abbrev pub is_hidden : Text → Bool
  is_hidden partition = not (q.all_views || is_visible q.view partition)

  none_hidden :
      any (λ j. is_hidden j.view.auth_partition_hash) (selected_rows sql compile t now q) ≡ false
  unfolding query_fits
  none_hidden =
      none_selected (λ j. is_hidden j.view.auth_partition_hash) (query_fits sql compile t now q)
        (join_rows t t.capabilities) (λ j h. ground arith)

  shown_rows : ℕ → ℕ → List Joined
  shown_rows limit offset = limited sql compile limit offset (
      sort_by (row_less sql compile t (search_tokens q.search)) (selected_rows sql compile t now q))

  none_hidden_shown :
      (limit offset : ℕ)
      → any
          (λ r. is_hidden r.auth_partition_hash)
          (query_capabilities t now (shown_rows limit offset))
        ≡ false
  unfolding shown_rows query_capabilities hydrate
  none_hidden_shown limit offset =
      let less = row_less sql compile t (search_tokens q.search) in
      let rows = selected_rows sql compile t now q in
      any-map (λ r. is_hidden r.auth_partition_hash) (hydrate t now) (shown_rows limit offset)
      ∙ any-limited sql compile (λ j. is_hidden j.view.auth_partition_hash) limit offset
          (sort_by less rows)
          (any-sort_by less (λ j. is_hidden j.view.auth_partition_hash) rows ∙ none_hidden)

  length-shown :
      (limit offset : ℕ)
      → length (query_capabilities t now (shown_rows limit offset))
        ≡ page_size limit offset (length (selected_rows sql compile t now q))
  unfolding shown_rows query_capabilities
  length-shown limit offset =
      let less = row_less sql compile t (search_tokens q.search) in
      let rows = selected_rows sql compile t now q in
      length-map (hydrate t now) (shown_rows limit offset)
      ∙ length-limited sql compile limit offset (sort_by less rows)
      ∙ ap (page_size limit offset) (length-sort_by less rows)

  -- A query for a limit and an offset gives a page whose records are all public or of the view of the
  -- query, unless it asks for all views, and which has as many records as there are matches from the
  -- offset on, up to the limit.
  pub query_capability_page_isolated :
      (limit offset : ℕ)
      → q.limit ≡ pos limit
      → q.offset ≡ pos offset
      → (page : CapabilityPage) × (query_capability_page sql compile t now q ≡ some page)
        × (any (λ r. is_hidden r.auth_partition_hash) page.records ≡ false)
        × (length page.records ≡ page_size limit offset page.match_count)
  unfolding query_capability_page page_from
  query_capability_page_isolated limit offset l o =
      elim (Bool-cases (leb (length (selected_rows sql compile t now q)) offset)) [
        | inl e ↦ (
          page_from sql compile t now q limit offset,
          rw (query_capability_page, l, o) refl,
          rw (page_from, e) refl,
          rw (page_from, e) (ground arith),
        )
        | inr e ↦ (
          page_from sql compile t now q limit offset,
          rw (query_capability_page, l, o) refl,
          rw (page_from, e) (unfold shown_rows in none_hidden_shown limit offset),
          rw (page_from, e) (unfold shown_rows in length-shown limit offset),
        )
      ]
