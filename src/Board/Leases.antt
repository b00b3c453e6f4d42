-- ===== src/Board/Leases.antt =====
-- board.go: log, sweepLocked, clearCurrentLocked, touchAgentLocked: the parts that the operations
-- share, over the state.
use agentboard.Prelude.{
  ℕ, ◌+◌, Bool, false, ◌&&◌, Option, none, some, List, [], ◌∷◌, ◌++◌, leb, if◌then◌else◌, length,
  is_empty, sort_by, Str, runes, str_eq, Table, lookup, insert,
}
use agentboard.Text.TaskId.{id_less}
use agentboard.Model.Status
use agentboard.Model.Status.{todo, in_progress}
use agentboard.Model.Data.{Time, Task, Agent, Activity, State}
use agentboard.Board.Types.{Result, ok, err, not_found}
use agentboard.Board.Inputs.{system_actor}

-- The entry gets the next id.
unfoldable pub log : Time → Str → Str → Str → Str → State → State
log now actor task_id action detail st =
    let id : ℕ = st.next_activity_id + 1 in
    let entry : Activity = record {
      id = id;
      time = now;
      actor = actor;
      task_id = task_id;
      action = action;
      detail = detail;
    } in
    record st { next_activity_id = id; activity = st.activity ++ entry ∷ [] }

-- `b.st.Tasks[id] = t`, and every write through the pointer that the map holds.
unfoldable pub put_task : Str → Task → State → State
put_task id t st = record st { tasks = insert id t st.tasks }

unfoldable pub put_agent : Str → Agent → State → State
put_agent name a st = record st { agents = insert name a st.agents }

unfoldable pub clear_current_locked : Str → Str → State → State
unfolding put_agent
clear_current_locked agent task_id st = elim (lookup agent st.agents) [
  | none ↦ st
  | some a ↦
      if str_eq a.current_task task_id
      then put_agent agent (record a { current_task = [] }) st
      else st
]

abbrev new_agent : Str → Agent
new_agent name = record {
  name = name;
  kind = runes "agent";
  last_heartbeat = 0;
  current_task = [];
  meta = [];
  online = false;
}

abbrev found_or_new : Str → Option Agent → Agent
found_or_new name none = new_agent name
found_or_new name (some a) = a

-- The agent as the call leaves it.
unfoldable pub touched : Str → Str → Str → Time → Option Agent → Agent
touched name kind task_id now found =
    let a = found_or_new name found in
    record a {
      kind = (if is_empty kind then a.kind else kind);
      last_heartbeat = now;
      current_task = (if is_empty task_id then a.current_task else task_id);
    }

unfoldable pub touch_agent_locked : Str → Str → Str → Time → State → State
unfolding touched put_agent
touch_agent_locked name kind task_id now st =
    put_agent name (touched name kind task_id now (lookup name st.agents)) st

-- `!now.Before(*t.LeaseExpires)`; no lease, no expiry.
abbrev pub lease_over : Time → Option Time → Bool
lease_over now none = false
lease_over now (some e) = leb e now

unfoldable pub has_expired : Time → Task → Bool
has_expired now t = Status.eq t.status in_progress && lease_over now t.lease_expires

unfoldable pub expired_ids : Time → Table Task → List Str
unfolding has_expired
expired_ids now [] = []
expired_ids now ((id, t) ∷ m) =
    if has_expired now t then id ∷ expired_ids now m else expired_ids now m

-- The task as the sweep leaves it.
unfoldable pub swept : Time → Task → Task
swept now t = record t {
  status = todo;
  assignee = [];
  lease_expires = none;
  lease_seconds = 0;
  updated_at = now;
  updated_by = system_actor;
}

-- One round of the sweep's second loop.
unfoldable pub release_expired : Time → Str → State → State
unfolding swept put_task clear_current_locked log
release_expired now id st = elim (lookup id st.tasks) [
  | none ↦ st
  | some t ↦
      log now system_actor id (runes "lease_expired") (runes "released from " ++ t.assignee)
        (clear_current_locked t.assignee id (put_task id (swept now t) st))
]

unfoldable pub release_all : Time → List Str → State → State
release_all now [] st = st
release_all now (id ∷ ids) st = release_all now ids (release_expired now id st)

-- The state after the sweep, and how many tasks it released.
unfoldable pub sweep_locked : Time → State → State × ℕ
unfolding expired_ids release_all
sweep_locked now st =
    let expired = sort_by id_less (expired_ids now st.tasks) in
    (release_all now expired st, length expired)

unfoldable pub task_locked : Str → State → Result Task
task_locked id st = elim (lookup id st.tasks) [ none ↦ err not_found | some t ↦ ok t ]
