-- ===== src/Trust/Sources.antt =====
-- How internal/trust/config.go finds the value of a credential: resolveSources and what it calls. What
-- the operating system does is the record `Machine`, as it is at the time of the call.
pub mod First
use skillex.Prelude.{
  ℕ, suc, ◌+◌, ◌-◌, ◌*◌, ◌%◌, ◌^◌, ◌==◌, Bool, true, false, ◌&&◌, ◌||◌, not, Option, none, some,
  List, [], ◌∷◌, ◌++◌, Text, codes, is_empty, text_eq, has_prefix, trim_prefix, trim_space,
  contains_text, replace_all, cut, length, take, drop, leb, ltb, if◌then◌else◌, Result, ok, err,
  ◌>>=◌, ◌>>◌, guard,
}
use skillex.Capability.Integers.{ℤ, pos, negsuc}
use skillex.Trust.Types.{
  EnvSource, DotenvSource, KeychainSource, HelperSource, CredentialSource, FilePaths,
}

pub data SourceError : Type 0 where
  template_unsupported path_relative link_unresolved outside_project : SourceError
  dotenv_unreadable dotenv_too_large scan_failed : SourceError
  helper_timed_out helper_exited keychain_unsupported : SourceError

-- What os.Open, Stat and bufio.Scanner give for a path.
pub data Opened : Type 0 where
  missing unreadable : Opened
  -- the size, the lines, and whether the scanner stops with an error behind them
  file : ℕ → List Text → Bool → Opened

-- runtime.GOOS
pub data Platform : Type 0 where
  darwin linux other_platform : Platform

-- What a process does: the writes to its output, and whether it ended well or ran out of time.
pub record Ran : Type 0 where
  pub chunks : List Text
  pub succeeded : Bool
  pub timed_out : Bool

pub data StoredToken : Type 0 where
  token_missing token_unreadable : StoredToken
  -- ValidFor(30 seconds) and CanRefresh
  token : Bool → Bool → StoredToken

pub record Machine : Type 0 where
  pub files : FilePaths
  pub lookup_env : Text → Option Text
  pub open_file : Text → Opened
  pub platform : Platform
  -- exec.LookPath
  pub look_path : Text → Option Text
  -- exec.CommandContext and Run with an empty environment; the time is in nanoseconds
  pub run : Text → List Text → ℕ → Ran
  -- TokenStore.Load
  pub load_token : Text → StoredToken

abbrev pub root_variable : Text
root_variable = codes "${projectRoot}"

abbrev pub leaves_root : Text → Bool
leaves_root rel = text_eq rel (codes "..") || has_prefix rel (codes "../")

abbrev pub or_error : {A : Type 0} → SourceError → Option A → Result SourceError A
or_error e none = err e
or_error e (some a) = ok a

-- The last part of expandProjectPath, which follows symbolic links.
unfoldable pub confine_path : FilePaths → Text → Text → Result SourceError Text
confine_path files expanded root = do
  base ← or_error link_unresolved (files.eval_symlinks root)
  resolved ← or_error link_unresolved (files.eval_symlinks expanded)
  rel ← or_error outside_project (files.rel base resolved)
  guard (not (leaves_root rel)) outside_project
  ok resolved

-- expandProjectPath
unfoldable pub expand_project_path : FilePaths → Text → Text → Bool → Result SourceError Text
unfolding confine_path
expand_project_path files value root confine =
    let expanded = replace_all value root_variable root in
    if is_empty value
    then ok []
    else if contains_text (replace_all value root_variable []) (codes "${")
    then err template_unsupported
    else if not (files.is_abs expanded)
    then err path_relative
    else if not confine || not (contains_text value root_variable)
    then ok (files.clean expanded)
    else confine_path files expanded root

abbrev pub first_byte : Text → ℕ
first_byte [] = 0
first_byte (c ∷ s) = c

abbrev pub last_byte : Text → ℕ
last_byte [] = 0
last_byte (c ∷ []) = c
last_byte (c ∷ d ∷ s) = last_byte (d ∷ s)

-- A value without the quotes round it.
unfoldable pub unquote : Text → Text
unquote value =
    let is_quoted = λ (q : ℕ). first_byte value == q && last_byte value == q in
    if leb 2 (length value) && (is_quoted 0x27 || is_quoted 0x22)
    then take (length value - 2) (drop 1 value)
    else value

-- What one line assigns to a key.
unfoldable pub assigned : Text → Text → Option Text
unfolding unquote
assigned key raw =
    let line = trim_space raw in
    if is_empty line || has_prefix line (codes "#")
    then none
    else elim (cut 0x3d (trim_space (trim_prefix line (codes "export ")))) [
      | none ↦ none
      | some (name, value) ↦
          if text_eq (trim_space name) key then some (unquote (trim_space value)) else none
    ]

-- The loop of readDotenvExact over the lines.
unfoldable pub find_assignment : Text → List Text → Option Text
unfolding assigned
find_assignment key [] = none
find_assignment key (raw ∷ lines) =
    let rest = find_assignment key lines in
    elim (assigned key raw) [ none ↦ rest | some v ↦ some v ]

abbrev pub max_dotenv_size : ℕ
max_dotenv_size = 1048576

-- readDotenvExact of an opened file, with the case of a missing one that resolveSources passes over.
unfoldable pub read_dotenv_exact : Opened → Text → Result SourceError (Option Text)
unfolding find_assignment
read_dotenv_exact missing key = ok none
read_dotenv_exact unreadable key = err dotenv_unreadable
read_dotenv_exact (file size lines failed) key =
    if ltb max_dotenv_size size then err dotenv_too_large else elim (find_assignment key lines) [
      | some v ↦ ok (some v)
      | none ↦ if failed then err scan_failed else ok none
    ]

abbrev pub max_output : ℕ
max_output = 65536

-- limitedCredentialBuffer.Write, for all the writes of a process; `none` is its error.
unfoldable pub write_all : Text → List Text → Option Text
write_all buffer [] = some buffer
write_all buffer (chunk ∷ chunks) =
    let next = write_all (buffer ++ chunk) chunks in
    if ltb max_output (length buffer + length chunk) then none else next

-- A time.Duration of 64 bits that is not positive stands for five seconds.
abbrev pub or_five_seconds : ℕ → ℕ
or_five_seconds bits = if bits == 0 || leb (2 ^ 63) bits then 5000000000 else bits

-- time.Duration(source.TimeoutMS) * time.Millisecond, with the wrap-around of 64 bits
unfoldable pub helper_timeout : ℤ → ℕ
helper_timeout (pos n) = or_five_seconds ((n * 1000000) % 2 ^ 64)
helper_timeout (negsuc n) = or_five_seconds ((2 ^ 64 - (suc n * 1000000) % 2 ^ 64) % 2 ^ 64)

-- resolveHelper
unfoldable pub resolve_helper : Machine → HelperSource → Result SourceError (Option Text)
unfolding write_all helper_timeout
resolve_helper m h =
    let ran = m.run h.command h.args (helper_timeout h.timeout_ms) in
    let failed = err (if ran.timed_out then helper_timed_out else helper_exited) in
    elim (write_all [] ran.chunks) [
      | none ↦ failed
      | some output ↦
          if not ran.succeeded
          then failed
          else ok (if is_empty (trim_space output) then none else some (trim_space output))
    ]

-- A lookup that ends without success counts as absent.
abbrev pub absent_if_exited : Result SourceError (Option Text) → Result SourceError (Option Text)
absent_if_exited (err helper_exited) = ok none
absent_if_exited r = r

abbrev pub lookup_with : Machine → Text → List Text → Result SourceError (Option Text)
lookup_with m command args =
    absent_if_exited
      (resolve_helper m (record { command = command; args = args; timeout_ms = pos 0 }))

-- The switch of resolveKeychain.
unfoldable pub keychain_on : Platform → Machine → KeychainSource → Result SourceError (Option Text)
unfolding resolve_helper
keychain_on darwin m k = lookup_with m (codes "/usr/bin/security") (
    codes "find-generic-password"
    ∷ codes "-w"
    ∷ codes "-s"
    ∷ k.service
    ∷ codes "-a"
    ∷ k.account
    ∷ [])
keychain_on linux m k = elim (m.look_path (codes "secret-tool")) [
  | none ↦ ok none
  | some path ↦
      lookup_with m path
        (codes "lookup" ∷ codes "service" ∷ k.service ∷ codes "account" ∷ k.account ∷ [])
]
keychain_on other_platform m k = err keychain_unsupported

-- resolveKeychain
unfoldable pub resolve_keychain : Machine → KeychainSource → Result SourceError (Option Text)
unfolding keychain_on
resolve_keychain m k = keychain_on m.platform m k

unfoldable pub resolve_dotenv : Machine → Text → DotenvSource → Result SourceError (Option Text)
unfolding expand_project_path read_dotenv_exact
resolve_dotenv m root d = do
  path ← expand_project_path m.files d.path root true
  read_dotenv_exact (m.open_file path) d.key

-- One round of resolveSources: the first place that the source names.
unfoldable pub resolve_source : Machine → Text → CredentialSource → Result SourceError (Option Text)
unfolding resolve_dotenv resolve_keychain resolve_helper
resolve_source m root s = elim s.env [
  | some e ↦ ok (m.lookup_env e.key)
  | none ↦ elim s.dotenv [
    | some d ↦ resolve_dotenv m root d
    | none ↦ elim s.keychain [
      | some k ↦ resolve_keychain m k
      | none ↦ elim s.helper [ some h ↦ resolve_helper m h | none ↦ ok none ]
    ]
  ]
]

-- The sources that resolveSources asks, and what it returns; `none` is a value that is not present.
unfoldable pub ask_sources :
    Machine
    → Text
    → List CredentialSource
    → List CredentialSource × Result SourceError (Option Text)
ask_sources m root [] = ([], ok none)
ask_sources m root (s ∷ sources) = elim (resolve_source m root s) [
  | err e ↦ (s ∷ [], err e)
  | ok (some v) ↦ (s ∷ [], ok (some v))
  | ok none ↦ let later = ask_sources m root sources in (s ∷ later.0, later.1)
]

-- resolveSources
unfoldable pub resolve_sources :
    Machine → Text → List CredentialSource → Result SourceError (Option Text)
unfolding ask_sources
resolve_sources m root sources = (ask_sources m root sources).1
