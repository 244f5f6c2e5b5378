-- ===== src/Prelude/Search.antt =====
-- The functions of Go's `strings` package that look for a text inside another.
use Prim.Native.Nat.{ℕ, zero, suc, ◌+◌, ◌-◌}
use mathlib.Core.Bool.{Bool, ◌||◌, ◌&&◌}
use mathlib.Core.List.{[], ◌∷◌, ◌++◌, map}
use mathlib.Core.Option.{Option, none, some}
use skillex.Prelude.Tests.{leb, ◌==◌, if◌then◌else◌}
use skillex.Prelude.Lists.{length}
use skillex.Prelude.Strings.{Text, has_prefix}

-- strings.Contains(s, sub)
unfoldable pub contains_text : Text → Text → Bool
unfolding has_prefix
contains_text [] sub = has_prefix [] sub
contains_text (c ∷ s) sub = has_prefix (c ∷ s) sub || contains_text s sub

-- The bytes left to skip are those of an occurrence that was replaced.
unfoldable pub replace_from : ℕ → Text → Text → Text → Text
unfolding has_prefix
replace_from skip [] old new = []
replace_from (suc skip) (c ∷ s) old new = replace_from skip s old new
replace_from zero (c ∷ s) old new =
    let hit = new ++ replace_from (length old - 1) s old new in
    let miss = c ∷ replace_from zero s old new in if has_prefix (c ∷ s) old then hit else miss

-- strings.ReplaceAll(s, old, new) for an `old` that is not empty
unfoldable pub replace_all : Text → Text → Text → Text
unfolding replace_from
replace_all s old new = replace_from 0 s old new

-- strings.Cut(s, sep) for a `sep` of one byte; `none` where it is not found
unfoldable pub cut : ℕ → Text → Option (Text × Text)
cut c [] = none
cut c (x ∷ s) =
    let rest = cut c s in
    if x == c then some ([], s) else elim rest [ none ↦ none | some (a, b) ↦ some (x ∷ a, b) ]

-- strings.ToLower, of a text of ASCII letters
unfoldable pub to_lower : Text → Text
to_lower = map (λ c. if leb b'A' c && leb c b'Z' then c + 32 else c)
