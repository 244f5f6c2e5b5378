-- ===== src/UpdateCheck/Tests.antt =====
-- Runs of internal/updatecheck, and the theorem about it at one of them.
use skillex.Prelude.{
  ℕ, ◌+◌, ◌*◌, ◌≡◌, refl, true, false, none, some, List, [], ◌∷◌, Text, codes, text_eq, arith,
}
use skillex.UpdateCheck.{
  minute, due, read_cache, retry_at, refused, latest, unavailable, Fetched, Call, conclude, refresh,
  notices_step, requests,
}
use skillex.UpdateCheck.Pace.{one_request_per_hour}

abbrev call_at : ℕ → Fetched → Call
call_at now fetched = record {
  now = now;
  offline = false;
  is_first = true;
  directory_made = true;
  leased = true;
  seen = none;
  written = true;
  rewritten = true;
  fetched = fetched;
}

abbrev source : Text
source = codes "github"

abbrev start : ℕ
start = 100 * minute

-- The service refuses, and asks to come back in ten seconds.
abbrev refusal : Fetched
refusal = refused (record { retry_after = some 10; retry_date = none; reset = none }) start

abbrev after : List Call
after =
    call_at (start + minute) unavailable
    ∷ call_at (start + 59 * minute) (latest (codes "1.2.3") [])
    ∷ []

start-asked : (notices_step source (call_at start refusal) none).1 ≡ true
unfolding notices_step due read_cache refresh
start-asked = refl

one_request_per_hour_example : requests source (call_at start refusal ∷ after) none ≡ 1
one_request_per_hour_example =
    one_request_per_hour source (call_at start refusal) after none (omega arith) start-asked
      ((omega arith, omega arith), ((omega arith, omega arith), tt))

-- An hour later it is asked again.
asked_again :
    requests source (call_at start refusal ∷ call_at (start + 60 * minute) unavailable ∷ []) none
    ≡ 2
unfolding requests notices_step due read_cache refresh conclude retry_at text_eq
asked_again = refl
