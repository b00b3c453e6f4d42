-- ===== src/Board/Calls.antt =====
-- The methods of Board that change its state, as data, and histories of calls.
use agentboard.Prelude.{Option, some, List, [], ◌∷◌, Str, ◌≢◌}
use agentboard.Prelude.Int.{ℤ}
use agentboard.Password.{Bytes}
use agentboard.Board.Types.{Error, Board, Env, NewTask, Patch, Filter, HeartbeatRequest}
use agentboard.Board.Do.{sweep}
use agentboard.Board.Tasks.{create_project, add_task, comment}
use agentboard.Board.Claims.{claim, release, complete, heartbeat}
use agentboard.Board.Update.{update}
use agentboard.Board.Accounts.{register, authenticate}
use agentboard.Board.Saving.{flush, close, shutdown}
use agentboard.Board.Queries.{tasks}

pub data Call : Type 0 where
  creates_project : Str → Str → Str → Call
  adds_task : NewTask → Call
  comments : Str → Str → Str → Call
  claims : Str → Str → ℤ → Call
  releases : Str → Str → Call
  completes : Str → Str → Call
  updates : Str → Patch → Call
  beats : Str → HeartbeatRequest → Call
  sweeps : Call
  reads : Filter → Call
  registers : Str → Str → Option Bytes → Call
  logs_in : Str → Str → Option Bytes → Call
  flushes : Option Error → Call
  closes : Option Error → Call
  shuts_down : Str → Option Error → Env → Call

module _ (prf : Str → Bytes → Bytes) (parse_address : Str → Option Str) where
  -- The board after a call, its reply left out.
  unfoldable pub perform : Env → Call → Board → Board
  perform env (creates_project key name actor) b = (create_project key name actor env b).0
  perform env (adds_task new) b = (add_task new env b).0
  perform env (comments id actor text) b = (comment id actor text env b).0
  perform env (claims id agent lease) b = (claim id agent lease env b).0
  perform env (releases id agent) b = (release id agent env b).0
  perform env (completes id agent) b = (complete id agent env b).0
  perform env (updates id p) b = (update id p env b).0
  perform env (beats name req) b = (heartbeat name req env b).0
  perform env sweeps b = (sweep env b).0
  perform env (reads f) b = (tasks f env b).0
  perform env (registers raw password salt) b =
      (register prf parse_address raw password salt env b).0
  perform env (logs_in raw password salt) b = (authenticate prf raw password salt env b).0
  perform env (flushes archive_error) b = (flush archive_error env b).0
  perform env (closes archive_error) b = (close archive_error env b).0
  perform env (shuts_down actor archive_error later) b =
      (shutdown actor archive_error env later b).0

  unfoldable pub run : List (Env × Call) → Board → Board
  unfolding perform
  run [] b = b
  run ((env, call) ∷ calls) b = run calls (perform env call b)

-- rand.Read fills a salt that is not empty.
abbrev pub HasSalt : Call → Type 0
HasSalt (registers raw password salt) = salt ≢ some []
HasSalt (logs_in raw password salt) = salt ≢ some []
HasSalt _ = Unit

abbrev pub HaveSalts : List (Env × Call) → Type 0
HaveSalts [] = Unit
HaveSalts ((env, call) ∷ calls) = HasSalt call × HaveSalts calls
