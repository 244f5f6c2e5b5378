-- ===== src/Registry/Path/Prefixes.antt =====
-- What the index lookup of internal/registry/path.go finds: the members of `pathPrefixes`.
use skillex.Prelude.{
  ℕ, zero, suc, ◌≡◌, refl, ◌≢◌, ap, ◌∙◌, sym, Bool, false, ◌&&◌, ◌||◌, List, [], ◌∷◌, ◌++◌, map,
  Text, text_eq, has_prefix, split_on, split_on-cons, cons_head, join, elem, length, take, ◌==◌,
  if◌then◌else◌, arith, Bool-cases, inl, inr, ==_iff,
}
use mathlib.Core.Path.{ap₂}
use mathlib.Core.List.{append_assoc, map-map}
use skillex.Registry.Path.{slash, prefix_at, prefix_loop, path_prefixes}

-- Whether the last byte is a slash.
abbrev pub ends_in_slash : Text → Bool
ends_in_slash [] = false
ends_in_slash (c ∷ []) = c == slash
ends_in_slash (c ∷ d ∷ s) = ends_in_slash (d ∷ s)

-- The prefixes by recursion on the parts.
prefixes_of : List Text → List Text
prefixes_of [] = []
prefixes_of (p ∷ []) = p ∷ []
prefixes_of (p ∷ q ∷ ps) = (p ++ slash ∷ []) ∷ map (λ r. p ++ slash ∷ r) (prefixes_of (q ∷ ps))

-- The prefixes by recursion on the bytes.
prefixes_by_byte : Text → List Text
prefixes_by_byte [] = [] ∷ []
prefixes_by_byte (c ∷ s) =
    let rest = map (λ r. c ∷ r) (prefixes_by_byte s) in if c == slash then (c ∷ []) ∷ rest else rest

prefix_at-cons :
    (p q : Text) (ps : List Text) (i : ℕ)
    → prefix_at (p ∷ q ∷ ps) (suc (suc i)) ≡ p ++ slash ∷ prefix_at (q ∷ ps) (suc i)
unfolding prefix_at join
prefix_at-cons p q ps i =
    ground (arith, append_assoc p (slash ∷ join slash (q ∷ take i ps)) (slash ∷ []))

prefix_loop-cons :
    (p q : Text) (ps : List Text) (i n : ℕ)
    → prefix_loop (p ∷ q ∷ ps) (suc (suc i)) n
      ≡ map (λ r. p ++ slash ∷ r) (prefix_loop (q ∷ ps) (suc i) n)
unfolding prefix_loop
prefix_loop-cons p q ps i zero = refl
prefix_loop-cons p q ps i (suc n) = rw (prefix_at-cons p q ps i, prefix_loop-cons p q ps (suc i) n)

prefix_at-first : (p q : Text) (ps : List Text) → prefix_at (p ∷ q ∷ ps) 1 ≡ p ++ slash ∷ []
unfolding prefix_at join
prefix_at-first p q ps = ground arith

prefix_loop-eq-prefixes_of : (ps : List Text) → prefix_loop ps 1 (length ps) ≡ prefixes_of ps
unfolding prefix_loop prefixes_of
prefix_loop-eq-prefixes_of [] = refl
prefix_loop-eq-prefixes_of (p ∷ []) = unfold prefix_at join in refl
prefix_loop-eq-prefixes_of (p ∷ q ∷ ps) = ap₂ ◌∷◌ (prefix_at-first p q ps) (
    prefix_loop-cons p q ps 0 (suc (length ps))
    ∙ ap (map (λ r. p ++ slash ∷ r)) (prefix_loop-eq-prefixes_of (q ∷ ps)))

prefixes_of-cons_head :
    (c : ℕ) (p : Text) (ps : List Text)
    → prefixes_of (cons_head c (p ∷ ps)) ≡ map (λ r. c ∷ r) (prefixes_of (p ∷ ps))
unfolding prefixes_of
prefixes_of-cons_head c p [] = refl
prefixes_of-cons_head c p (q ∷ ps) =
    ap (λ t. (c ∷ (p ++ slash ∷ [])) ∷ t) (sym (map-map _ _ (prefixes_of (q ∷ ps))))

elem-map-cons :
    (c d : ℕ) (q : Text) (ts : List Text)
    → elem (c ∷ q) (map (λ r. d ∷ r) ts) ≡ (c == d && elem q ts)
unfolding elem
elem-map-cons c d q [] = ground arith
elem-map-cons c d q (t ∷ ts) = ground (arith, elem-map-cons c d q ts)

elem-map-cons_nil : (d : ℕ) (ts : List Text) → elem [] (map (λ r. d ∷ r) ts) ≡ false
unfolding elem
elem-map-cons_nil d [] = refl
elem-map-cons_nil d (t ∷ ts) = elem-map-cons_nil d ts

prefixes_of-nil_head :
    (ps : List Text)
    → (p : Text) × (qs : List Text) × (ps ≡ p ∷ qs)
    → prefixes_of ([] ∷ ps) ≡ (slash ∷ []) ∷ map (λ r. slash ∷ r) (prefixes_of ps)
prefixes_of-nil_head ps (p, qs, e) = rw e (unfold prefixes_of in refl)

prefixes_of-cons_head_split :
    (c : ℕ) (ps : List Text)
    → (p : Text) × (qs : List Text) × (ps ≡ p ∷ qs)
    → prefixes_of (cons_head c ps) ≡ map (λ r. c ∷ r) (prefixes_of ps)
prefixes_of-cons_head_split c ps (p, qs, e) = rw e (prefixes_of-cons_head c p qs)

prefixes_of-split : (s : Text) → prefixes_of (split_on slash s) ≡ prefixes_by_byte s
unfolding split_on prefixes_by_byte
prefixes_of-split [] = unfold prefixes_of in refl
prefixes_of-split (c ∷ s) = elim (Bool-cases (c == slash)) [
  | inl h ↦
      rw (h, (==_iff c slash).0 h, ← prefixes_of-split s)
        (prefixes_of-nil_head (split_on slash s) (split_on-cons slash s))
  | inr h ↦
      rw (h, ← prefixes_of-split s)
        (prefixes_of-cons_head_split c (split_on slash s) (split_on-cons slash s))
]

elem-prefixes_by_byte :
    (q s : Text)
    → elem q (prefixes_by_byte s) ≡ (text_eq q s || (ends_in_slash q && has_prefix s q))
unfolding prefixes_by_byte elem has_prefix
elem-prefixes_by_byte [] [] = refl
elem-prefixes_by_byte (d ∷ q) [] = ground arith
elem-prefixes_by_byte [] (c ∷ s) = ground (arith, elem-map-cons_nil c (prefixes_by_byte s))
elem-prefixes_by_byte (d ∷ []) (c ∷ s) =
    ground (arith, elem-map-cons d c [] (prefixes_by_byte s), elem-prefixes_by_byte [] s)
elem-prefixes_by_byte (d ∷ e ∷ q) (c ∷ s) =
    ground (arith, elem-map-cons d c (e ∷ q) (prefixes_by_byte s), elem-prefixes_by_byte (e ∷ q) s)

path_prefixes-cons : (c : ℕ) (s : Text) → path_prefixes (c ∷ s) ≡ prefixes_by_byte (c ∷ s)
unfolding path_prefixes
path_prefixes-cons c s =
    prefix_loop-eq-prefixes_of (split_on slash (c ∷ s)) ∙ prefixes_of-split (c ∷ s)

-- A text is looked up in the index for a path that is not empty exactly when it is the path itself
-- or a prefix of it that ends in a slash.
pub elem-path_prefixes :
    (q path : Text)
    → path ≢ []
    → elem q (path_prefixes path) ≡ (text_eq q path || (ends_in_slash q && has_prefix path q))
elem-path_prefixes q [] h = absurd (h refl)
elem-path_prefixes q (c ∷ s) h = rw path_prefixes-cons (elem-prefixes_by_byte q (c ∷ s))
