-- ===== src/Examples/Data.antt =====
-- A board with its inputs, for the examples.
use agentboard.Prelude.{
  ℕ, zero, suc, ap, false, Option, none, some, List, [], ◌∷◌, Str, runes, length, ◌≡◌, refl,
}
use agentboard.Prelude.Int.{pos}
use agentboard.Password.{Bytes, hash_size}
use agentboard.Model.Priority.{high}
use agentboard.Model.Kind.{Kind}
use agentboard.Model.Data.{new_state}
use agentboard.Board.Types.{Env, Board, NewTask, Patch, async}
use agentboard.Board.Inputs.{default_lease, default_agent_ttl}
use agentboard.Board.Calls.{Call, creates_project, adds_task, claims, flushes}

abbrev pub at : ℕ → Env
at t = record { now = t; save_error = none }

abbrev pub fresh_board : Board
fresh_board = record {
  st = new_state;
  store = new_state;
  agent_ttl = default_agent_ttl;
  lease = default_lease;
  subs = [];
  next_sub = 0;
  allowed_email_domains = [];
  archive_dir = [];
  max_activity = 0;
  mode = async;
  kick = false;
  closed = false;
  dirty = false;
  dirty_since = 0;
  last_save = 0;
  last_err = none;
  saves = 0;
  failures = 0;
}

abbrev pub new_task : NewTask
new_task = record {
  project = runes "AB";
  kind = Kind.task;
  parent = [];
  title = runes "Write";
  description = [];
  priority = high;
  labels = [];
  actor = runes "ann";
}

abbrev pub patch : Patch
patch = record {
  title = some (runes " Read ");
  description = none;
  status = none;
  priority = none;
  parent = none;
  labels = none;
  start_date = none;
  end_date = none;
  actor = runes "ann";
}

-- A keyed function that ignores the key and has 32 bytes of the message.
abbrev pad : ℕ → Bytes → Bytes
pad zero bs = []
pad (suc n) [] = 0 ∷ pad n []
pad (suc n) (b ∷ bs) = b ∷ pad n bs

length-pad : (n : ℕ) (bs : Bytes) → length (pad n bs) ≡ n
length-pad zero bs = refl
length-pad (suc n) [] = ap suc (length-pad n [])
length-pad (suc n) (b ∷ bs) = ap suc (length-pad n bs)

abbrev pub toy_prf : Str → Bytes → Bytes
toy_prf key msg = pad hash_size msg

pub toy_prf-sized : (key : Str) (msg : Bytes) → length (toy_prf key msg) ≡ hash_size
toy_prf-sized key msg = length-pad hash_size msg

-- Every text is an address.
abbrev pub any_address : Str → Option Str
any_address s = some s

-- A project, a task in it, a claim, and a flush that the Store accepts.
abbrev pub setup : List (Env × Call)
setup =
    (at 10, creates_project (runes "AB") (runes "Alpha") (runes "ann"))
    ∷ (at 20, adds_task new_task)
    ∷ []

abbrev pub history : List (Env × Call)
history =
    (at 10, creates_project (runes "AB") (runes "Alpha") (runes "ann"))
    ∷ (at 20, adds_task new_task)
    ∷ (at 30, claims (runes "AB-1") (runes "bob") (pos 0))
    ∷ (at 40, flushes none)
    ∷ []
