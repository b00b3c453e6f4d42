-- ===== src/Lock.antt =====
-- lock.go: the lock file of a data directory, as the system calls of the processes that want it. A process is known by
-- its token, and all are on one host; `alive` is what processAlive tells of its pid, which is not given
-- to another process. Errors of the system beside a file that is there, or is not, are not modelled.
pub mod Owned
pub mod Reads
pub mod Releases
pub mod Exclusive
pub mod Takeover
use agentboard.Prelude.{
  ℕ, suc, ◌+◌, Bool, true, false, not, ◌&&◌, ◌||◌, Option, none, some, List, [], ◌∷◌, ltb, ◌==◌,
  if◌then◌else◌,
}
use agentboard.Board.Types.{Error}

-- The file, created by `owner`; it cannot be read before it is written.
pub record LockFile : Type 0 where
  pub owner : ℕ
  pub written : Bool

-- Where a process is, the number of its attempt included: before OpenFile (trying), before the first readLock (exists),
-- before processAlive (checks the owner read), before the second readLock (seen that it is dead), before Remove
-- (stale), before Encode, with the lock, before Release's Remove.
pub data Stage : Type 0 where
  idle : Stage
  trying exists : ℕ → Stage
  checks seen stale : ℕ → ℕ → Stage
  writing holding releasing failed over : Stage

pub record World : Type 0 where
  pub file : Option LockFile
  pub stage : ℕ → Stage
  pub alive : ℕ → Bool

abbrev pub put {ℓ} : {A : Type ℓ} → ℕ → A → (ℕ → A) → ℕ → A
put t a f u = if u == t then a else f u

abbrev pub goes : ℕ → Stage → World → World
goes t s w = record w { stage = put t s w.stage }

-- `attempt++`, and the end of the loop.
abbrev pub next_attempt : ℕ → Stage
next_attempt n = if ltb (n + 1) 3 then trying (n + 1) else failed

-- The O_EXCL of OpenFile.
unfoldable pub open_file : ℕ → ℕ → Option LockFile → World → World
open_file t n none w = record (goes t writing w) {
  file = some (record { owner = t; written = false });
}
open_file t n (some f) w = goes t (exists n) w

-- The first readLock: a file that is gone, that cannot be read, or that names its owner.
unfoldable pub read_held : ℕ → ℕ → Option LockFile → World → World
read_held t n none w = goes t (next_attempt n) w
read_held t n (some f) w = if f.written then goes t (checks n f.owner) w else goes t failed w

-- processAlive, of the owner read before.
unfoldable pub check_alive : ℕ → ℕ → ℕ → World → World
check_alive t n o w = if w.alive o then goes t failed w else goes t (seen n o) w

-- The second: whether it is still that exact file.
unfoldable pub read_again : ℕ → ℕ → ℕ → Option LockFile → World → World
read_again t n o none w = goes t (next_attempt n) w
read_again t n o (some f) w =
    if f.written && (f.owner == o) then goes t (stale n o) w else goes t (next_attempt n) w

abbrev pub writes_to : ℕ → Option LockFile → Option LockFile
writes_to t none = none
writes_to t (some f) = if f.owner == t then some (record f { written = true }) else some f

unfoldable pub read_own : ℕ → Option LockFile → World → World
read_own t none w = goes t over w
read_own t (some f) w = if f.written && (f.owner == t) then goes t releasing w else goes t over w

-- The next system call of a process.
unfoldable pub turn_at : Stage → ℕ → World → World
unfolding open_file read_held check_alive read_again
turn_at idle t w = goes t (trying 0) w
turn_at (trying n) t w = open_file t n w.file w
turn_at (exists n) t w = read_held t n w.file w
turn_at (checks n o) t w = check_alive t n o w
turn_at (seen n o) t w = read_again t n o w.file w
turn_at (stale n o) t w = record (goes t (next_attempt n) w) { file = none }
turn_at writing t w = record (goes t holding w) { file = writes_to t w.file }
turn_at releasing t w = record (goes t over w) { file = none }
turn_at holding t w = w
turn_at failed t w = w
turn_at over t w = w

unfoldable pub turn : ℕ → World → World
unfolding turn_at
turn t w = turn_at (w.stage t) t w

unfoldable pub release_at : Stage → ℕ → World → World
unfolding read_own
release_at holding t w = read_own t w.file w
release_at over t w = read_own t w.file w
release_at _ t w = w

-- The call of Release, up to its readLock; it may be called again when it is over.
unfoldable pub release : ℕ → World → World
unfolding release_at
release t w = release_at (w.stage t) t w

-- SetAddr of the Lock that AcquireLock gave the process: it renames a new file over the lock file, whoever owns that,
-- and also where there is none, as after Release.
unfoldable pub set_addr : ℕ → World → World
set_addr t w = record w { file = some (record { owner = t; written = true }) }

-- ReadLock: the file that a live process holds.
unfoldable read_lock : World → Option LockFile
read_lock w = elim w.file [
  | none ↦ none
  | some f ↦ if f.written && w.alive f.owner then some f else none
]

-- ForceUnlock, when nothing comes between its read and its Remove.
unfoldable force_unlock : World → World × Option Error
force_unlock w = elim w.file [
  | none ↦ (w, none)
  | some f ↦
      if not f.written || w.alive f.owner
      then (w, some Error.locked)
      else (record w { file = none }, none)
]

pub data Event : Type 0 where
  acts releases sets_addr dies : ℕ → Event

unfoldable pub perform : Event → World → World
unfolding turn release set_addr
perform (acts t) w = turn t w
perform (releases t) w = release t w
perform (sets_addr t) w = set_addr t w
perform (dies t) w = record (goes t over w) { alive = put t false w.alive }

unfoldable pub run : List Event → World → World
unfolding perform
run [] w = w
run (e ∷ es) w = run es (perform e w)

-- No lock file, and nobody at it.
abbrev pub unlocked : World
unlocked = record { file = none; stage = λ t. idle; alive = λ t. true }
