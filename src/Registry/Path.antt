-- ===== src/Registry/Path.antt =====
-- internal/registry/path.go: how a scope pattern is stored and how a path is looked up.
-- `compile` stands for `glob.Compile(pattern, '/')` of github.com/gobwas/glob: `none` is its error,
-- and `some g` a matcher with `g path` for `g.Match(path)`.
pub mod Prefixes
use skillex.Prelude.{
  ℕ, zero, suc, ◌+◌, ◌-◌, ◌<◌, Bool, true, false, ◌&&◌, not, Option, none, some, List, [], ◌∷◌,
  ◌++◌, Text, codes, text_eq, is_empty, has_prefix, has_suffix, trim_suffix, replace_byte,
  contains_any, index_any, last_index, split_on, join, length, take, ltb, if◌then◌else◌,
}

pub data PatternType : Type 0 where
  universal prefix exact glob : PatternType

abbrev pub slash : ℕ
slash = 0x2f

abbrev pub backslash : ℕ
backslash = 0x5c

-- strings.ReplaceAll(s, "\\", "/")
unfoldable pub normalize : Text → Text
unfolding replace_byte
normalize s = replace_byte backslash slash s

abbrev pub wildcards : Text
wildcards = codes "*?"

unfoldable pub literal_prefix : Text → ℕ → Text
literal_prefix norm wild = elim (last_index (take wild norm) slash) [
  | none ↦ []
  | some i ↦ take (i + 1) norm
]

unfoldable pub classify_wild : Text → ℕ → PatternType × Text
classify_wild norm wild =
    let base = take (length norm - 3) norm in
    if has_suffix norm (codes "/**") && not (contains_any base wildcards)
    then (PatternType.prefix, base ++ slash ∷ [])
    else (PatternType.glob, literal_prefix norm wild)

-- classifyScope: the type of a pattern, and the text that it is indexed by.
unfoldable pub classify_scope : Text → PatternType × Text
classify_scope scope =
    let norm = normalize scope in
    if text_eq norm (codes "**")
    then (PatternType.universal, [])
    else elim (index_any norm wildcards) [
      | none ↦ (PatternType.exact, norm)
      | some wild ↦ classify_wild norm wild
    ]

-- One round of the loop of `pathPrefixes`, `i` counting from 1.
prefix_at : List Text → ℕ → Text
unfolding join
prefix_at parts i =
    let p = join slash (take i parts) in if ltb i (length parts) then p ++ slash ∷ [] else p

-- The rounds `i`, `i + 1`, …, as many as `rounds` says.
prefix_loop : List Text → ℕ → ℕ → List Text
unfolding prefix_at
prefix_loop parts i zero = []
prefix_loop parts i (suc rounds) = prefix_at parts i ∷ prefix_loop parts (suc i) rounds

-- pathPrefixes
unfoldable pub path_prefixes : Text → List Text
unfolding split_on prefix_loop
path_prefixes path =
    if is_empty path
    then []
    else (let parts = split_on slash path in prefix_loop parts 1 (length parts))

-- globMatchPath
unfoldable pub glob_match_path : (Text → Option (Text → Bool)) → Text → Text → Bool
glob_match_path compile pattern path =
    let norm = normalize pattern in
    if text_eq norm (codes "**") then true else elim (compile norm) [
      | none ↦ has_prefix path (trim_suffix norm (codes "/**"))
      | some g ↦ g path
    ]
