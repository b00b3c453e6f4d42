-- ===== src/Board/Queries.antt =====
-- board.go: Tasks, Task, Agents, Projects, Snapshot, Recent and Export. Each read sweeps first.
use agentboard.Prelude.{
  ℕ, ◌+◌, Bool, true, ◌&&◌, ◌||◌, Option, none, some, List, [], reverse, ltb, ◌==◌, if◌then◌else◌,
  is_empty, keep, map, take, sort_by, values, Str, str_eq, str_lt,
}
use agentboard.Text.TaskId.{id_less}
use agentboard.Model.Status
use agentboard.Model.Kind
use agentboard.Model.Data.{Time, Project, Task, Agent, Activity, State}
use agentboard.Board.Types.{Result, ok, err, Reply, Board, Env, Filter}
use agentboard.Board.Inputs.{snapshot_activity}
use agentboard.Board.Leases.{sweep_locked, task_locked}
use agentboard.Board.Do.{Action, do_locked}
use agentboard.Board.Tasks.{on_ok}
use agentboard.Board.Saving.{SaveStatus, save_status_locked}

-- A filter's empty field matches everything.
abbrev pub fits : Str → Str → Bool
fits wanted actual = is_empty wanted || str_eq actual wanted

abbrev pub fits_option {ℓ} : {A : Type ℓ} → (A → A → Bool) → Option A → A → Bool
fits_option eq none actual = true
fits_option eq (some wanted) actual = eq actual wanted

unfoldable pub matches : Filter → Task → Bool
matches f t =
    fits f.project t.project
    && fits_option Status.eq f.status t.status
    && fits f.assignee t.assignee
    && fits_option Kind.eq f.kind t.kind
    && fits f.parent t.parent

abbrev pub task_less : Task → Task → Bool
task_less a b = id_less a.id b.id

unfoldable pub tasks_locked : Filter → State → List Task
unfolding matches id_less
tasks_locked f st = sort_by task_less (keep (matches f) (values st.tasks))

-- `out` is read under the lock; no event.
abbrev reading {ℓ} : {A : Type ℓ} → (Time → State → A) → Action A
reading read now st = (st, none, ok (read now st))

unfoldable pub tasks : Filter → Env → Board → Board × Reply (List Task)
unfolding tasks_locked
tasks f = do_locked (reading (λ now st. tasks_locked f st))

pub record TaskDetail : Type 0 where
  pub task : Task
  pub activity : List Activity

unfoldable pub task_action : Str → Action TaskDetail
unfolding task_locked
task_action id now st = on_ok st (task_locked id st) λ t.
    (st, none, ok (record { task = t; activity = keep (λ a. str_eq a.task_id id) st.activity }))

unfoldable pub task : Str → Env → Board → Board × Reply TaskDetail
unfolding task_action
task id = do_locked (task_action id)

-- `now.Sub(a.LastHeartbeat) < b.agentTTL`
unfoldable pub is_online : ℕ → Time → Agent → Bool
is_online ttl now a = ltb now (a.last_heartbeat + ttl)

unfoldable pub agents_locked : ℕ → Time → State → List Agent
unfolding is_online
agents_locked ttl now st =
    sort_by (λ a b. str_lt a.name b.name)
      (map {A = Agent} (λ a. record a { online = is_online ttl now a }) (values st.agents))

unfoldable pub agents : Env → Board → Board × Reply (List Agent)
unfolding agents_locked
agents env b = do_locked (reading (agents_locked b.agent_ttl)) env b

unfoldable pub projects_locked : State → List Project
projects_locked st = sort_by (λ a b. str_lt a.key b.key) (values st.projects)

unfoldable pub projects : Env → Board → Board × Reply (List Project)
unfolding projects_locked
projects = do_locked (reading (λ now st. projects_locked st))

pub record Snapshot : Type 0 where
  pub now : Time
  pub projects : List Project
  pub tasks : List Task
  pub agents : List Agent
  pub activity : List Activity
  pub save : SaveStatus

-- The newest entries first, at most `limit` of them.
unfoldable pub newest : ℕ → State → List Activity
newest limit st = take limit (reverse st.activity)

abbrev no_filter : Filter
no_filter = record { project = []; status = none; assignee = []; kind = none; parent = [] }

unfoldable pub snapshot_locked : Board → Time → State → Snapshot
unfolding projects_locked tasks_locked agents_locked newest save_status_locked
snapshot_locked b now st = record {
  now = now;
  projects = projects_locked st;
  tasks = tasks_locked no_filter st;
  agents = agents_locked b.agent_ttl now st;
  activity = newest snapshot_activity st;
  save = save_status_locked now b;
}

unfoldable pub snapshot : Env → Board → Board × Reply Snapshot
unfolding snapshot_locked
snapshot env b = do_locked (reading (snapshot_locked b)) env b

-- A limit of 0 or less, or above 1000, means the default: `none` stands for a negative one.
unfoldable pub recent : Option ℕ → Board → List Activity
unfolding newest
recent none b = newest snapshot_activity b.st
recent (some limit) b =
    newest (if (limit == 0) || ltb 1000 limit then snapshot_activity else limit) b.st

-- exportState: the swept state, written and read back. Its sweep is neither saved nor published.
module _ (decode : State → Result State) where
  unfoldable pub export_with_credentials : Env → Board → Board × Result State
  export_with_credentials env b =
      let st = (sweep_locked env.now b.st).0 in (record b { st = st }, decode st)

  abbrev without_users : Result State → Result State
  without_users (err e) = err e
  without_users (ok st) = ok (record st { users = [] })

  -- Export, which every network caller gets.
  unfoldable pub export : Env → Board → Board × Result State
  unfolding export_with_credentials
  export env b = let (b', r) = export_with_credentials env b in (b', without_users r)
