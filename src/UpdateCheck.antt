-- ===== src/UpdateCheck.antt =====
-- internal/updatecheck/check.go and sources.go: when the release service is asked, and what is noticed.
-- A time is a number of nanoseconds since the zero time. The package semver, HTTP, JSON and the file
-- system are parameters: the cache on the disk is `none` where it cannot be read.
pub mod Pace
mod Tests
use skillex.Prelude.{
  ℕ, suc, ◌+◌, ◌-◌, ◌*◌, ◌==◌, Bool, true, false, ◌&&◌, ◌||◌, not, Option, none, some, List, [],
  ◌∷◌, ◌++◌, Text, codes, is_empty, text_eq, min, leb, ltb, if◌then◌else◌,
}

abbrev pub second : ℕ
second = 1000000000

abbrev pub minute : ℕ
minute = 60 * second

abbrev pub interval : ℕ
interval = 86400 * second

abbrev pub retry_interval : ℕ
retry_interval = 3600 * second

abbrev pub max_age : ℕ
max_age = 604800 * second

-- cache
pub record Cache : Type 0 where
  pub schema : ℕ
  pub source : Text
  pub latest_version : Text
  pub last_success_at : ℕ
  pub last_attempt_at : ℕ
  pub next_check_at : ℕ
  pub etag : Text

abbrev pub no_cache : Cache
no_cache = record {
  schema = 0;
  source = [];
  latest_version = [];
  last_success_at = 0;
  last_attempt_at = 0;
  next_check_at = 0;
  etag = [];
}

-- due
unfoldable pub due : Cache → ℕ → Bool
due state now =
    leb state.next_check_at now
    || (ltb (now + (interval + minute)) state.next_check_at
        || ltb (now + 5 * minute) state.last_attempt_at)

-- read
unfoldable pub read_cache : Text → Option Cache → Cache
read_cache source none = no_cache
read_cache source (some state) =
    if state.schema == 1 && text_eq state.source source then state else no_cache

-- The headers of a refusal, where they can be parsed: the seconds and the date of Retry-After, which is
-- one of them at most, and the time of X-RateLimit-Reset.
pub record Headers : Type 0 where
  pub retry_after : Option ℕ
  pub retry_date : Option ℕ
  pub reset : Option ℕ

abbrev pub or_date : ℕ → Option ℕ → ℕ
or_date at none = at
or_date at (some date) = date

abbrev pub asked_at : ℕ → Headers → ℕ
asked_at now h = elim h.retry_after [
  | none ↦ or_date (now + retry_interval) h.retry_date
  | some seconds ↦
      if seconds == 0
      then or_date (now + retry_interval) h.retry_date
      else now + min seconds 86400 * second
]

abbrev pub later_reset : ℕ → Option ℕ → ℕ
later_reset at none = at
later_reset at (some reset) = if ltb at reset then reset else at

-- retryAt
unfoldable pub retry_at : Headers → ℕ → ℕ
retry_at h now =
    let at = later_reset (asked_at now h) h.reset in
    if ltb (now + interval) at then now + interval else at

-- What fetch gives: a version and an entity tag, a refusal at a time, or another error.
pub data Fetched : Type 0 where
  latest : Text → Text → Fetched
  refused : Headers → ℕ → Fetched
  unavailable : Fetched

-- One call of Notices, and what the system answers it.
pub record Call : Type 0 where
  pub now : ℕ
  pub offline : Bool
  -- TryLock
  pub is_first : Bool
  -- MkdirAll
  pub directory_made : Bool
  -- the lease is opened and locked
  pub leased : Bool
  -- the cache on the disk when the call begins; another process may write it before the lease is held
  pub seen : Option Cache
  pub written : Bool
  pub rewritten : Bool
  pub fetched : Fetched

-- A file that is written, or stays as it is.
abbrev pub write_if : Bool → Cache → Option Cache → Option Cache
write_if succeeds state file = if succeeds then some state else file

-- The part of Notices behind the fetch, for what it gave; the cache on the disk is `begun`.
unfoldable pub conclude : Call → Cache → Fetched → Option Cache
unfolding retry_at
conclude c begun (latest version etag) =
    write_if c.rewritten
      (record begun {
        latest_version = version;
        etag = etag;
        last_success_at = c.now;
        next_check_at = c.now + interval;
      })
      (some begun)
conclude c begun (refused headers at) =
    if ltb begun.next_check_at (retry_at headers at)
    then write_if c.rewritten (record begun { next_check_at = retry_at headers at }) (some begun)
    else some begun
conclude c begun unavailable = some begun

-- The cache before the service is asked, with the time of the next check.
abbrev pub begin : Text → ℕ → Cache → Cache
begin source now state = record state {
  schema = 1;
  source = source;
  last_attempt_at = now;
  next_check_at = now + retry_interval;
}

-- The part of Notices under the lease: the cache on the disk, and whether the service was asked.
unfoldable pub refresh : Text → Call → Option Cache → Option Cache × Bool
unfolding due read_cache conclude
refresh source c file =
    let state = read_cache source file in
    if not (due state c.now)
    then (file, false)
    else if not c.written
    then (file, false)
    else (conclude c (begin source c.now state) c.fetched, true)

-- Notices of an enabled checker, without its result, for the cache on the disk when the lease is held.
unfoldable pub notices_step : Text → Call → Option Cache → Option Cache × Bool
unfolding due read_cache refresh
notices_step source c file =
    if not c.is_first
    then (file, false)
    else if c.offline || not (due (read_cache source c.seen) c.now)
    then (file, false)
    else if not (c.directory_made && c.leased)
    then (file, false)
    else refresh source c file

-- The number of times that the service is asked in a sequence of calls, of any processes.
unfoldable pub requests : Text → List Call → Option Cache → ℕ
unfolding notices_step
requests source [] file = 0
requests source (c ∷ calls) file =
    let (file', asked) = notices_step source c file in
    if asked then suc (requests source calls file') else requests source calls file'

-- semver, of texts
pub record Semver : Type 0 where
  -- canonical of check.go, over semver.IsValid and semver.Canonical
  pub canonical : Text → Text
  pub prerelease : Text → Text
  -- semver.Compare(v, w) > 0
  pub is_newer : Text → Text → Bool

-- Checker.notices, without the texts: the version to be noticed
unfoldable pub noticed : Semver → Text → Cache → ℕ → Option Text
noticed v current_version state now =
    let latest = v.canonical state.latest_version in
    if is_empty latest
      || (not (is_empty (v.prerelease latest))
          || (state.last_success_at == 0
              || (ltb max_age (now - state.last_success_at)
                  || (ltb (now + 5 * minute) state.last_success_at
                      || not (v.is_newer latest (v.canonical current_version))))))
    then none
    else some latest
