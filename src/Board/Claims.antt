-- ===== src/Board/Claims.antt =====
-- board.go: Claim, Release, Complete and Heartbeat.
use agentboard.Prelude.{
  ℕ, ◌+◌, ◌*◌, ◌/◌, Bool, true, not, ◌&&◌, ◌||◌, Option, none, some, [], ◌++◌, ltb, ◌==◌,
  if◌then◌else◌, is_empty, is_some, Str, runes, str_eq, Table, lookup, map_values,
}
use agentboard.Prelude.Int.{ℤ, pos, pos_part, ltb_ℤ, neg_part}
use agentboard.Text.{byte_len, name_re}
use agentboard.Model.Status
use agentboard.Model.Status.{todo, in_progress, done}
use agentboard.Model.Data.{Time, Task, Agent, State}
use agentboard.Board.Types.{
  Result, ok, err, ◌>>=◌, ◌>>◌, refuse_if, invalid, claimed, not_owner, Reply, EventType, Board,
  Env, HeartbeatRequest,
}
use agentboard.Board.Inputs.{second, min_lease, max_lease, max_kind, validate_meta, duration_string}
use agentboard.Board.Leases.{
  log, put_task, put_agent, clear_current_locked, touched, touch_agent_locked, task_locked,
}
use agentboard.Board.Do.{event, Action, do_locked}
use agentboard.Board.Tasks.{on_ok, checked}

-- Another agent is assigned and holds a lease.
abbrev pub held_by_other : Str → Task → Bool
held_by_other agent t =
    not (is_empty t.assignee) && not (str_eq t.assignee agent) && is_some t.lease_expires

abbrev pub is_zero : ℤ → Bool
is_zero d = (pos_part d == 0) && (neg_part d == 0)

-- The task with the lease of a claim.
unfoldable pub leased : Str → ℕ → Time → Task → Task
leased agent lease now t = record t {
  assignee = agent;
  status = in_progress;
  lease_expires = some (now + lease);
  lease_seconds = lease / second;
  updated_at = now;
  updated_by = agent;
}

-- The task, if the agent may claim it.
unfoldable pub claimable : Str → Str → State → Result Task
unfolding task_locked
claimable id agent st = do
  t ← task_locked id st
  refuse_if (Status.eq t.status done) invalid
  refuse_if (held_by_other agent t) claimed
  ok t

-- A claim by the agent that works on the task already.
abbrev is_renewal : Str → Task → Bool
is_renewal agent t = str_eq t.assignee agent && Status.eq t.status in_progress

unfoldable pub claim_action : Str → Str → ℕ → Action Task
claim_action id agent lease now st = on_ok st (claimable id agent st) λ t.
    let t' = leased agent lease now t in
    (
      log now agent id (if is_renewal agent t then runes "lease_renewed" else runes "claimed")
          (runes "lease " ++ duration_string lease)
          (touch_agent_locked agent [] id now (put_task id t' st)),
      some (event EventType.task id),
      ok t',
    )

-- The lease that a claim gets: the board's for 0, else the one asked for, in its bounds.
unfoldable pub check_claim : Str → ℤ → ℕ → Result ℕ
check_claim agent lease default = do
  refuse_if (not (name_re agent)) invalid
  let chosen = if is_zero lease then pos default else lease
  refuse_if (ltb_ℤ chosen (pos min_lease) || ltb_ℤ (pos max_lease) chosen) invalid
  ok (pos_part chosen)

unfoldable pub claim : Str → Str → ℤ → Env → Board → Board × Reply Task
claim id agent lease env b =
    checked (check_claim agent lease b.lease) (λ l. claim_action id agent l) env b

-- The task back in the queue.
unfoldable pub queued : Str → Time → Task → Task
queued agent now t = record t {
  status = todo;
  assignee = [];
  lease_expires = none;
  lease_seconds = 0;
  updated_at = now;
  updated_by = agent;
}

-- The task, if the agent holds it.
unfoldable pub releasable : Str → Str → State → Result Task
unfolding task_locked
releasable id agent st = do
  t ← task_locked id st
  refuse_if (is_empty t.assignee) invalid
  refuse_if (not (str_eq t.assignee agent)) not_owner
  ok t

unfoldable pub release_action : Str → Str → Action Task
release_action id agent now st = on_ok st (releasable id agent st) λ t.
    let t' = queued agent now t in
    (
      log now agent id (runes "released") [] (clear_current_locked agent id (put_task id t' st)),
      some (event EventType.task id),
      ok t',
    )

unfoldable pub release : Str → Str → Env → Board → Board × Reply Task
unfolding release_action
release id agent = do_locked (release_action id agent)

-- The finished task; an unassigned one goes to the agent that finished it.
unfoldable pub finished : Str → Time → Task → Task
finished agent now t = record t {
  assignee = (if is_empty t.assignee then agent else t.assignee);
  status = done;
  lease_expires = none;
  lease_seconds = 0;
  updated_at = now;
  updated_by = agent;
}

-- The task, if the agent may finish it.
unfoldable pub completable : Str → Str → State → Result Task
unfolding task_locked
completable id agent st = do
  t ← task_locked id st
  refuse_if (held_by_other agent t) not_owner
  refuse_if (Status.eq t.status done) invalid
  ok t

unfoldable pub complete_action : Str → Str → Action Task
complete_action id agent now st = on_ok st (completable id agent st) λ t.
    let t' = finished agent now t in
    (
      log now agent id (runes "done") [] (clear_current_locked t'.assignee id (put_task id t' st)),
      some (event EventType.task id),
      ok t',
    )

abbrev pub check_agent : Str → Result (Unit {0})
check_agent agent = refuse_if (not (name_re agent)) invalid

unfoldable pub complete : Str → Str → Env → Board → Board × Reply Task
unfolding complete_action
complete id agent = checked (check_agent agent) (λ _. complete_action id agent)

abbrev pub new_expiry : ℕ → Time → Task → Time
new_expiry default now t =
    now + (if t.lease_seconds == 0 then default else t.lease_seconds * second)

-- One round of the loop that renews the leases of the agent.
unfoldable pub renewed : ℕ → Str → Time → Task → Task
renewed default name now t =
    if str_eq t.assignee name && Status.eq t.status in_progress && is_some t.lease_expires
    then record t { lease_expires = some (new_expiry default now t) }
    else t

abbrev with_meta : Option (Table Str) → Agent → Agent
with_meta none a = a
with_meta (some m) a = record a { meta = m }

-- The task that the heartbeat names, if any, is assigned to the agent.
unfoldable pub check_current : Str → Str → State → Result (Unit {0})
unfolding task_locked
check_current name task_id st = if is_empty task_id then ok tt else elim (task_locked task_id st) [
  | err e ↦ err e
  | ok t ↦ if not (str_eq t.assignee name) then err not_owner else ok tt
]

-- The renewal of every lease that the agent holds.
unfoldable pub renew_leases : ℕ → Str → Time → State → State
unfolding renewed
renew_leases default name now st = record st {
  tasks = map_values (renewed default name now) st.tasks;
}

-- The agent as the heartbeat leaves it.
unfoldable pub beaten : Str → HeartbeatRequest → Time → State → Agent
unfolding touched
beaten name req now st =
    with_meta req.meta (touched name req.kind req.task now (lookup name st.agents))

unfoldable pub heartbeat_action : ℕ → Str → HeartbeatRequest → Action Agent
heartbeat_action default name req now st = on_ok st (check_current name req.task st) λ _.
    let a = beaten name req now st in
    (
      renew_leases default name now (put_agent name a st),
      some (event EventType.agent []),
      ok (record a { online = true }),
    )

abbrev check_meta : Option (Table Str) → Result (Unit {0})
check_meta none = ok tt
check_meta (some m) = validate_meta m

unfoldable pub check_heartbeat : Str → HeartbeatRequest → Result (Unit {0})
unfolding validate_meta
check_heartbeat name req = do
  refuse_if (not (name_re name)) invalid
  refuse_if (ltb max_kind (byte_len req.kind)) invalid
  check_meta req.meta

unfoldable pub heartbeat : Str → HeartbeatRequest → Env → Board → Board × Reply Agent
unfolding check_heartbeat heartbeat_action
heartbeat name req env b =
    checked (check_heartbeat name req) (λ _. heartbeat_action b.lease name req) env b
