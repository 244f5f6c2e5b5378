-- ===== src/SigningKey/Agreement.antt =====
-- All loads of internal/capability/key.go give the same key.
use skillex.Prelude.{
  ℕ, ◌==◌, ◌≡◌, refl, sym, ◌∙◌, ap, Bool, true, false, ◌&&◌, Option, none, some, List, [], ◌∷◌,
  Text, text_eq_iff, length, ==_iff, arith, Bool-cases, inl, inr,
}
use skillex.SigningKey.{key_bytes, returned, Action, act, World, step, run, initial}
use skillex.SigningKey.Steps.{
  holds, fits, is_synced, are_apart, act-fits, act-fits_other, act-are_apart, are_apart_comm,
}

-- Every process fits the file, and only one is writing it.
pub record IsConsistent (w : World) : Type 0 where
  pub fitting : (p : ℕ) → fits w.content (w.processes p) ≡ true
  pub apart : (p q : ℕ) → (p == q) ≡ false → are_apart (w.processes p) (w.processes q) ≡ true

step-IsConsistent :
    (p : ℕ) (action : Action) (w : World)
    → is_synced action ≡ true
    → IsConsistent w
    → IsConsistent (step p action w)
unfolding step
step-IsConsistent p action w h c = record {
  fitting = λ q. elim (Bool-cases (q == p)) [
    | inl e ↦ rw e (act-fits action w.content (w.processes p) h (c.fitting p))
    | inr e ↦ rw e (
        act-fits_other action w.content (w.processes p) (w.processes q) h (c.fitting p)
          (c.apart p q (ground (arith, ==_iff q p, ==_iff p q))) (c.fitting q))
  ];
  apart = λ q r d. elim (Bool-cases (q == p)) [
    | inl e ↦
        let other : (r == p) ≡ false = ground (arith, ==_iff q p, ==_iff r p, ==_iff q r) in
        rw (e, other)
          (act-are_apart action w.content (w.processes p) (w.processes r) (c.fitting r)
            (c.apart p r (ground (arith, ==_iff p r, ==_iff r p))))
    | inr e ↦ elim (Bool-cases (r == p)) [
      | inl f ↦
          rw (e, f)
            (are_apart_comm (act action w.content (w.processes p)).1 (w.processes q) (
              act-are_apart action w.content (w.processes p) (w.processes q) (c.fitting q)
                (c.apart p q (ground (arith, ==_iff p q, ==_iff q p)))))
      | inr f ↦ rw (e, f) (c.apart q r d)
    ]
  ];
}

-- No call of Sync fails.
abbrev pub are_synced : List (ℕ × Action) → Bool
are_synced [] = true
are_synced ((p, action) ∷ steps) = is_synced action && are_synced steps

run-IsConsistent :
    (steps : List (ℕ × Action)) (w : World)
    → are_synced steps ≡ true
    → IsConsistent w
    → IsConsistent (run steps w)
unfolding run
run-IsConsistent [] w h c = c
run-IsConsistent ((p, action) ∷ steps) w h c =
    run-IsConsistent steps (step p action w) (ground arith)
      (step-IsConsistent p action w (ground arith) c)

initial-IsConsistent : (content : Option Text) → IsConsistent (initial content)
initial-IsConsistent content = record { fitting = λ p. refl; apart = λ p q d. refl }

holds_lem :
    (content : Option Text) (key : Text)
    → holds content key ≡ true
    → (content ≡ some key) × (length key ≡ key_bytes)
holds_lem none key h = cc
holds_lem (some c) key h =
    let same : c ≡ key = ground (arith, text_eq_iff c key) in
    let whole : length c ≡ key_bytes = ground (arith, ==_iff (length c) key_bytes) in
    (ap some same, rw same at whole)

returned-in_file :
    (w : World) (p : ℕ) (key : Text)
    → IsConsistent w
    → w.processes p ≡ returned key
    → (w.content ≡ some key) × (length key ≡ key_bytes)
returned-in_file w p key c e =
    let fitting = c.fitting p in holds_lem w.content key (rw e at fitting)

-- However the steps of the processes interleave, and whichever of them fail or stop, as long as no call
-- of Sync fails: all the keys that loads have returned are the same one, of 32 bytes, and it is what
-- the file holds.
pub loads_agree :
    (steps : List (ℕ × Action)) (content : Option Text) (p q : ℕ) (k l : Text)
    → are_synced steps ≡ true
    → (run steps (initial content)).processes p ≡ returned k
    → (run steps (initial content)).processes q ≡ returned l
    → (k ≡ l) × (length k ≡ key_bytes) × ((run steps (initial content)).content ≡ some k)
loads_agree steps content p q k l h e f =
    let w = run steps (initial content) in
    let c = run-IsConsistent steps (initial content) h (initial-IsConsistent content) in
    let (first, whole) = returned-in_file w p k c e in
    let (second, whole_too) = returned-in_file w q l c f in
    let same : some k ≡ some l = sym first ∙ second in (cc same, whole, first)
