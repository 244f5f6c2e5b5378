-- ===== src/UpdateCheck/Pace.antt =====
-- How often internal/updatecheck asks the release service.
use skillex.Prelude.{
  ℕ, suc, ◌+◌, ◌*◌, ◌≤◌, ◌<◌, ◌≡◌, refl, ap, true, false, ◌&&◌, ◌||◌, not, Option, some, List, [],
  ◌∷◌, Text, text_eq_refl, leb, ltb, All, if◌then◌else◌, arith, Bool-cases, inl, inr,
}
use skillex.UpdateCheck.{
  minute, interval, retry_interval, Cache, due, read_cache, Headers, asked_at, later_reset,
  retry_at, Fetched, latest, refused, unavailable, Call, conclude, begin, refresh, notices_step,
  requests,
}

-- The cache on the disk says not to ask before a time.
pub record Waits (source : Text) (start : ℕ) (file : Option Cache) : Type 0 where
  pub state : Cache
  pub on_disk : file ≡ some state
  pub own_schema : state.schema ≡ 1
  pub own_source : state.source ≡ source
  pub attempted : state.last_attempt_at ≡ start
  pub not_before : start + retry_interval ≤ state.next_check_at
  pub not_far : state.next_check_at ≤ start + (interval + minute)

-- A call within the hour.
abbrev pub IsWithin : ℕ → Call → Type 0
IsWithin start c = (start ≤ c.now) × (c.now < start + retry_interval)

clip_bound : (at limit : ℕ) → (if ltb limit at then limit else at) ≤ limit
clip_bound at limit = ground arith

retry_at_bound : (h : Headers) (now : ℕ) → retry_at h now ≤ now + interval
unfolding retry_at
retry_at_bound h now = clip_bound (later_reset (asked_at now h) h.reset) (now + interval)

read_cache-own :
    (source : Text) (file : Option Cache) (state : Cache)
    → file ≡ some state
    → state.schema ≡ 1
    → state.source ≡ source
    → read_cache source file ≡ state
unfolding read_cache
read_cache-own source file state e schema own =
    rw (e, read_cache, schema, own, text_eq_refl source) refl

idle :
    (next attempt now : ℕ) (start : ℕ)
    → start ≤ now
    → now < start + retry_interval
    → attempt ≡ start
    → start + retry_interval ≤ next
    → next ≤ start + (interval + minute)
    → (leb next now || (ltb (now + (interval + minute)) next || ltb (now + 5 * minute) attempt))
      ≡ false
idle next attempt now start a b e n f = ground arith

Waits-due :
    (source : Text) (start : ℕ) (file : Option Cache) (now : ℕ)
    → Waits source start file
    → start ≤ now
    → now < start + retry_interval
    → due (read_cache source file) now ≡ false
unfolding due
Waits-due source start file now w a b =
    rw (read_cache-own source file w.state w.on_disk w.own_schema w.own_source) (
      idle w.state.next_check_at w.state.last_attempt_at now start a b w.attempted w.not_before
        w.not_far)

refresh-waiting :
    (source : Text) (start : ℕ) (c : Call) (file : Option Cache)
    → Waits source start file
    → IsWithin start c
    → refresh source c file ≡ (file, false)
unfolding refresh
refresh-waiting source start c file w within =
    rw (refresh, Waits-due source start file c.now w within.0 within.1) refl

-- A call within the hour asks nothing, whatever it has seen before it held the lease.
notices_step-waiting :
    (source : Text) (start : ℕ) (c : Call) (file : Option Cache)
    → Waits source start file
    → IsWithin start c
    → notices_step source c file ≡ (file, false)
unfolding notices_step
notices_step-waiting source start c file w within = elim (Bool-cases c.is_first) [
  | inr e ↦ rw (notices_step, e) refl
  | inl e ↦ elim (Bool-cases (c.offline || not (due (read_cache source c.seen) c.now))) [
    | inl f ↦ rw (notices_step, e, f) refl
    | inr f ↦ elim (Bool-cases (c.directory_made && c.leased)) [
      | inr g ↦ rw (notices_step, e, f, g) refl
      | inl g ↦ rw (notices_step, e, f, g) (refresh-waiting source start c file w within)
    ]
  ]
]

requests-waiting :
    (source : Text) (start : ℕ) (calls : List Call) (file : Option Cache)
    → Waits source start file
    → All (IsWithin start) calls
    → requests source calls file ≡ 0
unfolding requests
requests-waiting source start [] file w within = refl
requests-waiting source start (c ∷ calls) file w within =
    rw (requests, notices_step-waiting source start c file w within.0)
      (requests-waiting source start calls file w within.1)

-- The clock has not gone on by more than a minute when a refusal is read.
abbrev pub IsPrompt : ℕ → Fetched → Type 0
IsPrompt now (latest version etag) = Unit
IsPrompt now (refused headers at) = at ≤ now + minute
IsPrompt now unavailable = Unit

begin-Waits :
    (source : Text) (now : ℕ) (state : Cache) → Waits source now (some (begin source now state))
begin-Waits source now state = record {
  state = begin source now state;
  on_disk = refl;
  own_schema = refl;
  own_source = refl;
  attempted = refl;
  not_before = omega arith;
  not_far = omega arith;
}

next-Waits :
    (source : Text) (now next : ℕ) (state : Cache)
    → now + retry_interval ≤ next
    → next ≤ now + (interval + minute)
    → Waits source now (some (record (begin source now state) { next_check_at = next }))
next-Waits source now next state low high = record {
  state = record (begin source now state) { next_check_at = next };
  on_disk = refl;
  own_schema = refl;
  own_source = refl;
  attempted = refl;
  not_before = low;
  not_far = high;
}

conclude-Waits :
    (source : Text) (c : Call) (state : Cache) (fetched : Fetched)
    → IsPrompt c.now fetched
    → Waits source c.now (conclude c (begin source c.now state) fetched)
unfolding conclude
conclude-Waits source c state (latest version etag) prompt = elim (Bool-cases c.rewritten) [
  | inl e ↦ rw e (
      next-Waits source c.now (c.now + interval)
        (record state { latest_version = version; etag = etag; last_success_at = c.now })
        (omega arith) (omega arith))
  | inr e ↦ rw e (begin-Waits source c.now state)
]
conclude-Waits source c state (refused headers at) prompt =
    elim (Bool-cases (ltb (c.now + retry_interval) (retry_at headers at))) [
      | inr e ↦ rw e (begin-Waits source c.now state)
      | inl e ↦ elim (Bool-cases c.rewritten) [
        | inr f ↦ rw (e, f) (begin-Waits source c.now state)
        | inl f ↦
            rw (e, f)
              (next-Waits source c.now (retry_at headers at) state (ground arith)
                (ground (arith, retry_at_bound headers at)))
      ]
    ]
conclude-Waits source c state unavailable prompt = begin-Waits source c.now state

asked-Waits :
    (source : Text) (c : Call) (file : Option Cache)
    → IsPrompt c.now c.fetched
    → (notices_step source c file).1 ≡ true
    → Waits source c.now (notices_step source c file).0
unfolding notices_step refresh
asked-Waits source c file prompt asked = elim (Bool-cases c.is_first) [
  | inr e ↦ let k : false ≡ true = rw (e, notices_step) at asked in cc
  | inl e ↦ elim (Bool-cases (c.offline || not (due (read_cache source c.seen) c.now))) [
    | inl f ↦ let k : false ≡ true = rw (e, notices_step, f) at asked in cc
    | inr f ↦ elim (Bool-cases (c.directory_made && c.leased)) [
      | inr g ↦ let k : false ≡ true = rw (e, notices_step, f, g) at asked in cc
      | inl g ↦ elim (Bool-cases (due (read_cache source file) c.now)) [
        | inr d ↦ let k : false ≡ true = rw (e, notices_step, f, g, refresh, d) at asked in cc
        | inl d ↦ elim (Bool-cases c.written) [
          | inr n ↦ let k : false ≡ true = rw (e, notices_step, f, g, refresh, d, n) at asked in cc
          | inl n ↦
              rw (notices_step, e, f, g, refresh, d, n)
                (conclude-Waits source c (read_cache source file) c.fetched prompt)
        ]
      ]
    ]
  ]
]

-- Where a call of Notices has asked the release service, no call that begins within the hour, of
-- whatever process and whatever it saw of the cache before, asks it again, be the answer a version, an
-- error or a refusal that was read within a minute.
pub one_request_per_hour :
    (source : Text) (first : Call) (calls : List Call) (file : Option Cache)
    → IsPrompt first.now first.fetched
    → (notices_step source first file).1 ≡ true
    → All (IsWithin first.now) calls
    → requests source (first ∷ calls) file ≡ 1
unfolding requests
one_request_per_hour source first calls file prompt asked within =
    rw (requests, asked)
      (ap suc (
        requests-waiting source first.now calls (notices_step source first file).0
          (asked-Waits source first file prompt asked) within))
