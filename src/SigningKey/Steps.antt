-- ===== src/SigningKey/Steps.antt =====
-- What one step of a process in internal/capability/key.go does to the others.
use skillex.Prelude.{
  ℕ, zero, suc, ◌==◌, ◌≡◌, ◌⊎◌, refl, ap, Bool, true, false, ◌&&◌, not, Option, none, some, [], ◌∷◌,
  Text, text_eq, text_eq_refl, length, take, length-take, leb, ltb, ==_iff, arith, Bool-cases, inl,
  inr,
}
use skillex.SigningKey.{
  key_bytes, Process, started, opened, drawn, written, synced, found, inspected, returned, Action,
  create, draw, write, write_failed, sync, close, inspect, read, store, content_length, act,
}

-- The file is there, and not complete.
abbrev pub is_short : Option Text → Bool
is_short none = false
is_short (some content) = ltb (length content) key_bytes

-- The file holds a whole key.
abbrev pub holds : Option Text → Text → Bool
holds none key = false
holds (some content) key = text_eq content key && length content == key_bytes

-- What the file holds while a process is where it is.
abbrev pub fits : Option Text → Process → Bool
fits content opened = is_short content
fits content (drawn key) = length key == key_bytes && is_short content
fits content (written key) = holds content key
fits content (synced key) = holds content key
fits content (returned key) = holds content key
fits content process = true

-- A process that has not written its key yet.
abbrev pub is_writing : Process → Bool
is_writing opened = true
is_writing (drawn key) = true
is_writing process = false

-- Sync does not fail.
abbrev pub is_synced : Action → Bool
is_synced (sync false) = false
is_synced action = true

take_all : (n : ℕ) (xs : Text) → leb (length xs) n ≡ true → take n xs ≡ xs
take_all zero [] h = refl
take_all zero (x ∷ xs) h = absurd (ground arith)
take_all (suc n) [] h = refl
take_all (suc n) (x ∷ xs) h = ap (λ ys. x ∷ ys) (take_all n xs (ground arith))

store-fits :
    (key : Text) (n : ℕ)
    → (length key == key_bytes) ≡ true
    → fits (store key n).0 (store key n).1 ≡ true
store-fits key n h = elim (Bool-cases (leb key_bytes n)) [
  | inl e ↦
      let whole : take n key ≡ key =
        take_all n key (ground (arith, ==_iff (length key) key_bytes)) in
      rw (e, whole, text_eq_refl key, h) refl
  | inr e ↦
      let short : ltb (length (take n key)) key_bytes ≡ true = ground (arith, length-take n key) in
      rw (e, h, short) refl
]

-- A step leaves its own process fitting.
pub act-fits :
    (action : Action) (content : Option Text) (process : Process)
    → is_synced action ≡ true
    → fits content process ≡ true
    → fits (act action content process).0 (act action content process).1 ≡ true
unfolding act
act-fits (create true) none started h f = refl
act-fits (create true) (some content) started h f = refl
act-fits (create false) content started h f = refl
act-fits (draw (some key)) content opened h f = elim (Bool-cases (length key == key_bytes)) [
  | inl e ↦ rw e (rw (e, f) refl)
  | inr e ↦ rw e f
]
act-fits (draw none) content opened h f = refl
act-fits (write n) content (drawn key) h f = elim (Bool-cases (leb (content_length content) n)) [
  | inl e ↦ rw e (store-fits key n (ground arith))
  | inr e ↦ rw e f
]
act-fits write_failed content (drawn key) h f = refl
act-fits (sync true) content (written key) h f = f
act-fits (sync false) content (written key) h f = cc
act-fits (close true) content (synced key) h f = f
act-fits (close false) content (synced key) h f = refl
act-fits (inspect owner_only) none found h f = refl
act-fits (inspect owner_only) (some content) found h f = elim (Bool-cases owner_only) [
  | inl e ↦ rw e refl
  | inr e ↦ rw e refl
]
act-fits (read true) none inspected h f = refl
act-fits (read true) (some content) inspected h f =
    elim (Bool-cases (length content == key_bytes)) [
      | inl e ↦ rw e (rw (text_eq_refl content, e) refl)
      | inr e ↦ rw e refl
    ]
act-fits (read false) content inspected h f = refl
act-fits action content process h f = f

-- Only one of two processes is writing its key.
abbrev pub are_apart : Process → Process → Bool
are_apart p q = not (is_writing p && is_writing q)

-- A process that fits a file that is not complete, beside one that is writing.
fits-idle :
    (content content' : Option Text) (other : Process)
    → (is_short content ≡ true)
    → is_writing other ≡ false
    → fits content other ≡ true
    → fits content' other ≡ true
fits-idle none content' other s i f = cc
fits-idle (some c) content' opened s i f = cc
fits-idle (some c) content' (drawn key) s i f = cc
fits-idle (some c) content' (written key) s i f = absurd (ground arith)
fits-idle (some c) content' (synced key) s i f = absurd (ground arith)
fits-idle (some c) content' (returned key) s i f = absurd (ground arith)
fits-idle (some c) content' other s i f = f

-- Without a file, no process is past its creation.
fits-none :
    (content' : Option Text) (other : Process) → fits none other ≡ true → fits content' other ≡ true
fits-none content' opened f = cc
fits-none content' (drawn key) f = absurd (ground arith)
fits-none content' (written key) f = cc
fits-none content' (synced key) f = cc
fits-none content' (returned key) f = cc
fits-none content' other f = f

-- A step leaves the other processes fitting.
pub act-fits_other :
    (action : Action) (content : Option Text) (process other : Process)
    → is_synced action ≡ true
    → fits content process ≡ true
    → are_apart process other ≡ true
    → fits content other ≡ true
    → fits (act action content process).0 other ≡ true
unfolding act
act-fits_other (create true) none started other h f a g = fits-none (some []) other g
act-fits_other (create true) (some content) started other h f a g = g
act-fits_other (draw none) content opened other h f a g =
    fits-idle content none other f (ground arith) g
act-fits_other (write n) content (drawn key) other h f a g =
    elim (Bool-cases (leb (content_length content) n)) [
      | inl e ↦ rw e (fits-idle content (some (take n key)) other (ground arith) (ground arith) g)
      | inr e ↦ rw e g
    ]
act-fits_other write_failed content (drawn key) other h f a g =
    fits-idle content none other (ground arith) (ground arith) g
act-fits_other (draw (some key)) content opened other h f a g = g
act-fits_other (create false) content started other h f a g = g
act-fits_other (sync true) content (written key) other h f a g = g
act-fits_other (close true) content (synced key) other h f a g = g
act-fits_other (close false) content (synced key) other h f a g = g
act-fits_other (read false) content inspected other h f a g = g
act-fits_other (sync false) content (written key) other h f a g = cc
act-fits_other (inspect owner_only) none found other h f a g = g
act-fits_other (inspect owner_only) (some content) found other h f a g = g
act-fits_other (read true) none inspected other h f a g = g
act-fits_other (read true) (some content) inspected other h f a g = g
act-fits_other action content process other h f a g = g

-- Who comes to write the key has created the file, or wrote it before.
act-is_writing :
    (action : Action) (content : Option Text) (process : Process)
    → is_writing (act action content process).1 ≡ true
    → (is_writing process ≡ true) ⊎ (content ≡ none)
unfolding act
act-is_writing (create true) none started w = inr refl
act-is_writing (create true) (some content) started w = cc
act-is_writing (create false) content started w = cc
act-is_writing (draw (some key)) content opened w = inl refl
act-is_writing (draw none) content opened w = cc
act-is_writing (write n) content (drawn key) w = inl refl
act-is_writing write_failed content (drawn key) w = cc
act-is_writing (sync true) content (written key) w = cc
act-is_writing (sync false) content (written key) w = cc
act-is_writing (close true) content (synced key) w = cc
act-is_writing (close false) content (synced key) w = cc
act-is_writing (inspect owner_only) none found w = cc
act-is_writing (inspect owner_only) (some content) found w = elim (Bool-cases owner_only) [
  | inl e ↦ let k : false ≡ true = rw e at w in cc
  | inr e ↦ let k : false ≡ true = rw e at w in cc
]
act-is_writing (read true) none inspected w = cc
act-is_writing (read true) (some content) inspected w =
    elim (Bool-cases (length content == key_bytes)) [
      | inl e ↦ let k : false ≡ true = rw e at w in cc
      | inr e ↦ let k : false ≡ true = rw e at w in cc
    ]
act-is_writing (read false) content inspected w = cc
act-is_writing action content process w = inl w

none-is_writing : (other : Process) → fits none other ≡ true → is_writing other ≡ false
none-is_writing opened f = cc
none-is_writing (drawn key) f = absurd (ground arith)
none-is_writing other f = refl

pub act-are_apart :
    (action : Action) (content : Option Text) (process other : Process)
    → fits content other ≡ true
    → are_apart process other ≡ true
    → are_apart (act action content process).1 other ≡ true
act-are_apart action content process other g a =
    elim (Bool-cases (is_writing (act action content process).1)) [
      | inr e ↦ rw e refl
      | inl e ↦ elim (act-is_writing action content process e) [
        | inl w ↦ rw e (rw w at a)
        | inr missing ↦ let idle = none-is_writing other (rw missing at g) in rw (e, idle) refl
      ]
    ]

pub are_apart_comm : (p q : Process) → are_apart p q ≡ true → are_apart q p ≡ true
are_apart_comm p q a = ground arith
