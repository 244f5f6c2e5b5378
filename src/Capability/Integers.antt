-- ===== src/Capability/Integers.antt =====
-- Signed integers (`int`, `int64`), as far as the guards of the program test them.
use skillex.Prelude.{ℕ, ◌==◌, Bool, true, false, leb}

-- `negsuc n` is -(n + 1).
pub data ℤ : Type 0 where
  pos : ℕ → ℤ
  negsuc : ℕ → ℤ

-- i <= 0
abbrev pub is_nonpositive : ℤ → Bool
is_nonpositive (pos n) = n == 0
is_nonpositive (negsuc n) = true

-- i <= j
abbrev pub le_int : ℤ → ℤ → Bool
le_int (pos n) (pos m) = leb n m
le_int (pos n) (negsuc m) = false
le_int (negsuc n) (pos m) = true
le_int (negsuc n) (negsuc m) = leb m n
