-- ===== src/Query/Limits.antt =====
-- The byte bounds of internal/query/query.go: compactText, and the budget of Read.
use Prim.Native.Nat.{bit_and}
use skillex.Prelude.{
  ℕ, zero, suc, min, sym, ◌+◌, ap, ◌∙◌, ◌*◌, ◌≤◌, ◌<◌, ◌≡◌, refl, ◌⊎◌, inl, inr, Bool, true, false,
  [], ◌∷◌, ◌++◌, Text, length, take, length-take, leb, ltb, ◌==◌, if◌then◌else◌, arith, Bool-cases,
}
use skillex.Capability.Integers.{ℤ, pos, negsuc}

-- s[i], at an index in range
abbrev pub byte_at : Text → ℕ → ℕ
byte_at [] i = 0
byte_at (c ∷ s) zero = c
byte_at (c ∷ s) (suc i) = byte_at s i

-- A byte inside a UTF-8 sequence: b & 0xc0 == 0x80
pub is_continuation : ℕ → Bool
is_continuation b = bit_and b 0xc0 == 0x80

-- for end > 0 && is_continuation(s[end]) { end-- }
unfoldable pub back_up : Text → ℕ → ℕ
back_up s zero = 0
back_up s (suc n) = if is_continuation (byte_at s (suc n)) then back_up s n else suc n

-- The bytes of "…".
abbrev pub ellipsis : Text
ellipsis = 0xe2 ∷ 0x80 ∷ 0xa6 ∷ []

-- compactText
unfoldable pub compact_text : Text → ℕ → Text
compact_text s max_len =
    if leb (length s) max_len then s else take (back_up s max_len) s ++ ellipsis

-- The bound that Read uses: 24 KiB if none is given, and at most 64 KiB.
unfoldable pub effective_max_bytes : ℤ → ℕ
effective_max_bytes (negsuc n) = 24 * 1024
effective_max_bytes (pos n) =
    let m = if n == 0 then 24 * 1024 else n in if ltb (64 * 1024) m then 64 * 1024 else m

-- What Read returns of the content it has selected.
pub record Bounded : Type 0 where
  pub content : Text
  pub content_bytes : ℕ
  pub truncated : Bool

unfoldable pub bound_content : Text → ℤ → Bounded
bound_content content max_bytes =
    let limit = effective_max_bytes max_bytes in
    if ltb limit (length content)
    then record {
      content = take (back_up content limit) content;
      content_bytes = length content;
      truncated = true;
    }
    else record { content = content; content_bytes = length content; truncated = false }

-- A position at which a text can be cut.
abbrev pub IsBoundary : Text → ℕ → Type 0
IsBoundary s n = (n ≡ 0) ⊎ (is_continuation (byte_at s n) ≡ false)

back_up-le : (s : Text) (n : ℕ) → back_up s n ≤ n
unfolding back_up
back_up-le s zero = omega arith
back_up-le s (suc n) = ground (arith, back_up-le s n)

back_up-IsBoundary : (s : Text) (n : ℕ) → IsBoundary s (back_up s n)
unfolding back_up
back_up-IsBoundary s zero = inl refl
back_up-IsBoundary s (suc n) = elim (Bool-cases (is_continuation (byte_at s (suc n)))) [
  | inl h ↦ rw h (back_up-IsBoundary s n)
  | inr h ↦ rw h (inr h)
]

-- The k bytes behind position n are all inside UTF-8 sequences.
abbrev pub AreContinuations : Text → ℕ → ℕ → Type 0
AreContinuations s n zero = Unit
AreContinuations s n (suc k) =
    (is_continuation (byte_at s (n + suc k)) ≡ true) × AreContinuations s n k

-- No byte is given up but those.
back_up-AreContinuations :
    (s : Text) (n : ℕ) → (k : ℕ) × (back_up s n + k ≡ n) × AreContinuations s (back_up s n) k
unfolding back_up
back_up-AreContinuations s zero = (0, omega arith, tt)
back_up-AreContinuations s (suc n) = elim (Bool-cases (is_continuation (byte_at s (suc n)))) [
  | inl h ↦
      let (k, e, inside) = back_up-AreContinuations s n in
      let at : suc n ≡ back_up s n + suc k = omega arith in
      rw h (suc k, omega arith, (ap (λ i. is_continuation (byte_at s i)) (sym at) ∙ h, inside))
  | inr h ↦ rw h (0, omega arith, tt)
]

-- A text that fits is not changed; a longer one becomes its first bytes, no more than the bound and
-- not ending inside a UTF-8 sequence, with an ellipsis behind them.
pub compact_text_lem :
    (s : Text) (max_len : ℕ)
    → ((length s ≤ max_len) × (compact_text s max_len ≡ s))
      ⊎ ((n : ℕ) × (max_len < length s)
          × (n ≤ max_len)
          × IsBoundary s n
          × (compact_text s max_len ≡ take n s ++ ellipsis))
unfolding compact_text
compact_text_lem s max_len = elim (Bool-cases (leb (length s) max_len)) [
  | inl h ↦ inl (ground arith, rw h)
  | inr h ↦
      inr
        (back_up s max_len, ground arith, back_up-le s max_len, back_up-IsBoundary s max_len, rw h)
]

abbrev cut_content : Text → ℕ → Bounded
cut_content content limit = record {
  content = take (back_up content limit) content;
  content_bytes = length content;
  truncated = true;
}

abbrev whole_content : Text → Bounded
whole_content content = record {
  content = content;
  content_bytes = length content;
  truncated = false;
}

bound_content-cases :
    (content : Text) (max_bytes : ℤ)
    → ((effective_max_bytes max_bytes < length content)
        × (bound_content content max_bytes ≡ cut_content content (effective_max_bytes max_bytes)))
      ⊎ ((length content ≤ effective_max_bytes max_bytes)
          × (bound_content content max_bytes ≡ whole_content content))
unfolding bound_content
bound_content-cases content max_bytes =
    elim (Bool-cases (ltb (effective_max_bytes max_bytes) (length content))) [
      | inl h ↦ inl (ground arith, rw h)
      | inr h ↦ inr (ground arith, rw h)
    ]

-- What a caller that asks for so many bytes may be given.
abbrev pub budget : ℤ → ℕ
budget (negsuc n) = 24 * 1024
budget (pos zero) = 24 * 1024
budget (pos (suc n)) = min (suc n) (64 * 1024)

effective_max_bytes-budget : (asked : ℤ) → effective_max_bytes asked ≡ budget asked
unfolding effective_max_bytes
effective_max_bytes-budget (negsuc n) = refl
effective_max_bytes-budget (pos zero) = refl
effective_max_bytes-budget (pos (suc n)) = ground arith

-- The content of a response never exceeds the bytes asked for, nor 64 KiB, nor 24 KiB if none are
-- asked for. It is the whole content if that fits; otherwise it is the longest part of it from its
-- start that does not end inside a UTF-8 sequence. It is marked as truncated exactly if the whole does
-- not fit, and the full size is reported.
pub bound_content_lem :
    (content : Text) (max_bytes : ℤ)
    → (length (bound_content content max_bytes).content ≤ budget max_bytes)
      × ((bound_content content max_bytes).content_bytes ≡ length content)
      × ((bound_content content max_bytes).truncated ≡ ltb (budget max_bytes) (length content))
      × ((length content ≤ budget max_bytes) × ((bound_content content max_bytes).content ≡ content)
          ⊎ ((n : ℕ) × (k : ℕ) × (n + k ≡ budget max_bytes)
              × (budget max_bytes < length content)
              × IsBoundary content n
              × AreContinuations content n k
              × ((bound_content content max_bytes).content ≡ take n content)))
bound_content_lem content max_bytes =
    let limit = effective_max_bytes max_bytes in
    rw (sym (effective_max_bytes-budget max_bytes)) (elim (bound_content-cases content max_bytes) [
      | inr (fits, e) ↦ rw e (fits, refl, ground arith, inl (fits, refl))
      | inl (long, e) ↦
          let within = back_up-le content limit in
          let (k, given_up, inside) = back_up-AreContinuations content limit in
          rw e (
            omega (arith, length-take (back_up content limit) content, within),
            refl,
            ground arith,
            inr (
              back_up content limit,
              k,
              given_up,
              long,
              back_up-IsBoundary content limit,
              inside,
              refl,
            ),
          )
    ])
