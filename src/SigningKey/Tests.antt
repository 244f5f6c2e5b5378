-- ===== src/SigningKey/Tests.antt =====
-- Runs of internal/capability/key.go, and the theorem about it at one of them.
use skillex.Prelude.{ℕ, ◌≡◌, refl, true, false, none, some, List, [], ◌∷◌, Text, codes, length}
use skillex.SigningKey.{
  key_bytes, returned, Action, create, draw, write, sync, close, inspect, read, act, step, run,
  initial,
}
use skillex.SigningKey.Agreement.{loads_agree}

abbrev key : Text
key = codes "0123456789abcdef0123456789abcdef"

abbrev another : Text
another = codes "ABCDEFGHIJKLMNOPABCDEFGHIJKLMNOP"

-- The first process creates the file, the second one reads it before the first is done.
abbrev steps : List (ℕ × Action)
steps =
    (1, create true)
    ∷ (2, create true)
    ∷ (1, draw (some key))
    ∷ (2, inspect true)
    ∷ (1, write 16)
    ∷ (1, write 32)
    ∷ (2, read true)
    ∷ (1, sync true)
    ∷ (1, close true)
    ∷ []

first-loaded : (run steps (initial none)).processes 1 ≡ returned key
unfolding run step act
first-loaded = refl

second-loaded : (run steps (initial none)).processes 2 ≡ returned key
unfolding run step act
second-loaded = refl

loads_agree_example :
    (key ≡ key) × (length key ≡ key_bytes) × ((run steps (initial none)).content ≡ some key)
loads_agree_example = loads_agree steps none 1 2 key key refl first-loaded second-loaded

-- Where the call of Sync fails, the key that the second process has read is removed, and a third
-- process makes another one.
abbrev unsynced : List (ℕ × Action)
unsynced =
    (1, create true)
    ∷ (1, draw (some key))
    ∷ (1, write 32)
    ∷ (2, create true)
    ∷ (2, inspect true)
    ∷ (2, read true)
    ∷ (1, sync false)
    ∷ (3, create true)
    ∷ (3, draw (some another))
    ∷ (3, write 32)
    ∷ (3, sync true)
    ∷ (3, close true)
    ∷ []

two_keys :
    ((run unsynced (initial none)).processes 2 ≡ returned key)
    × ((run unsynced (initial none)).processes 3 ≡ returned another)
unfolding run step act
two_keys = (refl, refl)
