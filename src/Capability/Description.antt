-- ===== src/Capability/Description.antt =====
-- internal/capability/description.go: the byte budget of a description. `encoded` is what
-- json.MarshalIndent gives, `none` its error.
use skillex.Prelude.{
  ℕ, ◌≤◌, ◌≡◌, ◌||◌, Option, none, some, Text, length, ltb, ◌==◌, ◌*◌, if◌then◌else◌, arith, Result,
  ok, err,
}
use skillex.Errors.{Error, description_budget_invalid, description_too_large, other}
use skillex.Capability.Integers.{ℤ, pos, negsuc}

abbrev pub default_description_max_bytes : ℕ
default_description_max_bytes = 24 * 1024

abbrev pub maximum_description_max_bytes : ℕ
maximum_description_max_bytes = 64 * 1024

-- The budget that is used: the default for 0, none outside 1 to the maximum.
pub budget : ℤ → Option ℕ
budget (pos n) =
    let m = if n == 0 then default_description_max_bytes else n in
    if ltb m 1 || ltb maximum_description_max_bytes m then none else some m
budget (negsuc n) = none

-- MarshalDescription
unfoldable pub marshal_description : Option Text → ℤ → Result Error Text
unfolding budget
marshal_description encoded max_bytes = elim (budget max_bytes) [
  | none ↦ err description_budget_invalid
  | some m ↦ elim encoded [
    | none ↦ err other
    | some text ↦ if ltb m (length text) then err description_too_large else ok text
  ]
]

-- A description that is returned is the whole encoding, within the budget asked for (the default for
-- 0) and within the maximum; the error names the budget exactly when that is out of range.
pub marshal_description_within :
    (encoded : Option Text) (n : ℕ) (text : Text)
    → marshal_description encoded (pos n) ≡ ok text
    → (encoded ≡ some text)
      × (length text ≤ maximum_description_max_bytes)
      × (length text ≤ (if n == 0 then default_description_max_bytes else n))
unfolding marshal_description
marshal_description_within encoded n text h = ground arith
