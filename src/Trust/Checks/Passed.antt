-- ===== src/Trust/Checks/Passed.antt =====
-- What the checks of internal/trust/config.go have tested where they pass.
use skillex.Prelude.{
  ◌≡◌, refl, Bool, true, false, Option, none, some, List, [], ◌∷◌, Text, text_eq_iff, elem,
  is_unique, any, is_empty, ◌+◌, All, All-imp, ok, err, ◌>>◌, guard, ◌==◌, arith,
}
use skillex.Trust.Types.{
  EnvSource, DotenvSource, KeychainSource, HelperSource, CredentialSource, FilePaths,
}
use skillex.Trust.Checks.{
  Invalid, source_not_one, Check, passed, each, where_set, is_set, one_if, configured, check_env,
  check_dotenv, check_keychain, check_helper, validate_source, validate_sources,
}

-- The first check of a chain, and the rest.
pub both_passed :
    (first rest : Check) → (first >> rest) ≡ passed → (first ≡ passed) × (rest ≡ passed)
both_passed (ok t) rest h = (refl, h)
both_passed (err e) rest h = cc

pub guard-passed : (b : Bool) (e : Invalid) → guard b e ≡ passed → b ≡ true
guard-passed true e h = refl
guard-passed false e h = cc

pub each-passed :
    {A : Type 0} (check : A → Check) (xs : List A)
    → each check xs ≡ passed
    → All (λ x. check x ≡ passed) xs
unfolding each
each-passed check [] h = tt
each-passed check (x ∷ xs) h =
    let (first, rest) = both_passed (check x) (each check xs) h in
    (first, each-passed check xs rest)

-- What a pointer leads to, unless it is nil.
abbrev pub WhereSet : {A : Type 0} → Option A → (A → Type 0) → Type 0
WhereSet none P = Unit
WhereSet (some a) P = P a

pub WhereSet-passed :
    {A : Type 0} (o : Option A) (check : A → Check) {P : A → Type 0}
    → ((a : A) → check a ≡ passed → P a)
    → where_set o check ≡ passed
    → WhereSet o P
WhereSet-passed none check sound h = tt
WhereSet-passed (some a) check sound h = sound a h

-- A list of keys that has none of the keys seen before, nor one key twice.
abbrev pub AreFresh : List Text → List Text → Type 0
AreFresh keys seen = (is_unique keys ≡ true) × (any (λ k. elem k seen) keys ≡ false)

fresh-tail :
    (key : Text) (keys seen : List Text)
    → any (λ k. elem k (key ∷ seen)) keys ≡ false
    → (elem key keys ≡ false) × (any (λ k. elem k seen) keys ≡ false)
unfolding elem
fresh-tail key [] seen h = (refl, refl)
fresh-tail key (k ∷ keys) seen h =
    let (absent, rest) = fresh-tail key keys seen (ground arith) in
    (ground (arith, text_eq_iff k key, text_eq_iff key k, absent), ground (arith, rest))

pub AreFresh-cons :
    (key : Text) (keys seen : List Text)
    → elem key seen ≡ false
    → AreFresh keys (key ∷ seen)
    → AreFresh (key ∷ keys) seen
unfolding is_unique
AreFresh-cons key keys seen new (unique, fresh) =
    let (absent, rest) = fresh-tail key keys seen fresh in (ground (arith, absent), ground arith)

-- A source names one place and no second one: a variable, a key of a dotenv file, an account of the
-- keychain, or a helper with an absolute command.
abbrev pub IsOnePlace :
    FilePaths
    → Option EnvSource
    → Option DotenvSource
    → Option KeychainSource
    → Option HelperSource
    → Type 0
IsOnePlace files (some e) none none none = is_empty e.key ≡ false
IsOnePlace files none (some d) none none = (is_empty d.path ≡ false) × (is_empty d.key ≡ false)
IsOnePlace files none none (some k) none =
    (is_empty k.service ≡ false) × (is_empty k.account ≡ false)
IsOnePlace files none none none (some h) = files.is_abs h.command ≡ true
IsOnePlace _ _ _ _ _ = ⊥

IsOnePlace-passed :
    (files : FilePaths) (env : Option EnvSource) (dotenv : Option DotenvSource)
    (keychain : Option KeychainSource) (helper : Option HelperSource)
    → where_set env check_env ≡ passed
    → where_set dotenv check_dotenv ≡ passed
    → where_set keychain check_keychain ≡ passed
    → where_set helper (check_helper files) ≡ passed
    → one_if (is_set env)
        + (one_if (is_set dotenv) + (one_if (is_set keychain) + one_if (is_set helper)))
      ≡ 1
    → IsOnePlace files env dotenv keychain helper
IsOnePlace-passed files (some e) none none none a b c d one = ground arith
IsOnePlace-passed files none (some p) none none a b c d one = (ground arith, ground arith)
IsOnePlace-passed files none none (some k) none a b c d one = (ground arith, ground arith)
IsOnePlace-passed files none none none (some h) a b c d one = ground arith
IsOnePlace-passed _ _ _ _ _ a b c d one = absurd (omega arith)

validate_source-IsOnePlace :
    (files : FilePaths) (s : CredentialSource)
    → validate_source files s ≡ passed
    → IsOnePlace files s.env s.dotenv s.keychain s.helper
unfolding validate_source configured
validate_source-IsOnePlace files s h =
    let (env, a) = both_passed (where_set s.env check_env) _ h in
    let (dotenv, b) = both_passed (where_set s.dotenv check_dotenv) _ a in
    let (keychain, c) = both_passed (where_set s.keychain check_keychain) _ b in
    let (helper, d) = both_passed (where_set s.helper (check_helper files)) _ c in
    let one = guard-passed (configured s == 1) source_not_one d in
    IsOnePlace-passed files s.env s.dotenv s.keychain s.helper env dotenv keychain helper
      (ground arith)

-- validateSources lets through only sources that name exactly one place.
pub validate_sources_sound :
    (files : FilePaths) (sources : List CredentialSource)
    → validate_sources files sources ≡ passed
    → All (λ s. IsOnePlace files s.env s.dotenv s.keychain s.helper) sources
unfolding validate_sources
validate_sources_sound files sources h =
    All-imp sources (validate_source-IsOnePlace files)
      (each-passed (validate_source files) sources h)
