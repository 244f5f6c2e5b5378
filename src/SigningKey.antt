-- ===== src/SigningKey.antt =====
-- internal/capability/key.go: the file with the signing key, which several processes may load or create
-- at once. A process goes through loadOrCreateSigningKey in steps on the one file; what the operating
-- system answers in a step is part of the step. Nothing but these processes writes the file.
pub mod Steps
pub mod Agreement
mod Tests
use skillex.Prelude.{
  ℕ, ◌==◌, Bool, true, false, ◌&&◌, not, Option, none, some, List, [], ◌∷◌, Text, length, take, leb,
  ltb, if◌then◌else◌,
}

-- referenceSigningKeyBytes
abbrev pub key_bytes : ℕ
key_bytes = 32

-- Where a process stands in loadOrCreateSigningKey.
pub data Process : Type 0 where
  started : Process
  -- the file is created, and empty
  opened : Process
  -- the key is drawn, and being written
  drawn : Text → Process
  -- the key is written, or written and synced
  written synced : Text → Process
  -- the file is there already, or inspected too
  found inspected : Process
  returned : Text → Process
  failed : Process

-- A step of a process. A Boolean says whether the system call succeeds.
pub data Action : Type 0 where
  -- MkdirAll and OpenFile; `false` is an error other than ErrExist
  create : Bool → Action
  -- io.ReadFull of the random source
  draw : Option Text → Action
  -- the number of bytes in the file after some more of the key is written, or an error of Write
  write : ℕ → Action
  write_failed : Action
  sync : Bool → Action
  close : Bool → Action
  -- Stat, and whether the file is for its owner only
  inspect : Bool → Action
  -- ReadFile
  read : Bool → Action

-- The first open of the file: O_CREATE and O_EXCL.
abbrev pub open_exclusive : Option Text → Option Text × Process
open_exclusive none = (some [], opened)
open_exclusive (some content) = (some content, found)

-- `abort`: the file is removed.
abbrev pub abort : Option Text × Process
abort = (none, failed)

abbrev pub store : Text → ℕ → Option Text × Process
store key n = (some (take n key), if leb key_bytes n then written key else drawn key)

abbrev pub content_length : Option Text → ℕ
content_length none = 0
content_length (some content) = length content

-- What a key that was read must be.
abbrev pub read_content : Option Text → Option Text × Process
read_content none = (none, failed)
read_content (some content) =
    (some content, if length content == key_bytes then returned content else failed)

abbrev pub inspect_content : Option Text → Bool → Option Text × Process
inspect_content none owner_only = (none, failed)
inspect_content (some content) owner_only = (some content, if owner_only then inspected else failed)

-- One step of a process on the content of the file, which is `none` where there is no file. A step that
-- the process cannot make leaves it as it is.
unfoldable pub act : Action → Option Text → Process → Option Text × Process
act (create true) content started = open_exclusive content
act (create false) content started = (content, failed)
act (draw (some key)) content opened =
    (content, if length key == key_bytes then drawn key else opened)
act (draw none) content opened = abort
act (write n) content (drawn key) =
    if leb (content_length content) n then store key n else (content, drawn key)
act write_failed content (drawn key) = abort
act (sync true) content (written key) = (content, synced key)
act (sync false) content (written key) = abort
act (close true) content (synced key) = (content, returned key)
act (close false) content (synced key) = (content, failed)
act (inspect owner_only) content found = inspect_content content owner_only
act (read true) content inspected = read_content content
act (read false) content inspected = (content, failed)
act action content process = (content, process)

-- The file, and the processes by their number.
pub record World : Type 0 where
  pub content : Option Text
  pub processes : ℕ → Process

abbrev pub set_process : ℕ → Process → (ℕ → Process) → ℕ → Process
set_process p process processes q = if q == p then process else processes q

unfoldable pub step : ℕ → Action → World → World
unfolding act
step p action w =
    let (content, process) = act action w.content (w.processes p) in
    record { content = content; processes = set_process p process w.processes }

-- The steps of all the processes, in the order in which they happen.
unfoldable pub run : List (ℕ × Action) → World → World
unfolding step
run [] w = w
run ((p, action) ∷ steps) w = run steps (step p action w)

-- Before any process has done anything, for a file that may be there already.
abbrev pub initial : Option Text → World
initial content = record { content = content; processes = λ p. started }
