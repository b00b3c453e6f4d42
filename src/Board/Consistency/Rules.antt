-- ===== src/Board/Consistency/Rules.antt =====
-- What holds of a board's state between two calls: the rules that ValidateState checks (store.go),
-- the shape of task ids, and that a lease stands only on a task in progress.
use agentboard.Prelude.{
  ℕ, ◌≤◌, ◌<◌, ◌≡◌, ◌≢◌, ◌⊎◌, true, false, none, some, List, [], ◌∷◌, Str, Table, lookup, Distinct,
}
use agentboard.Text.{key_re, to_lower}
use agentboard.Text.TaskId.{task_id}
use agentboard.Model.Status
use agentboard.Model.Status.{in_progress}
use agentboard.Model.Priority
use agentboard.Model.Kind
use agentboard.Model.Data.{Project, Task, Agent, User, Activity, State}
use agentboard.Board.Update.{ends_before}

-- The id is `<project>-<n>` for a number that the project's counter covers.
abbrev pub Numbered : Table Project → Str → Task → Type 0
Numbered projects id t =
    (p : Project) × (n : ℕ) × (lookup t.project projects ≡ some p)
    × (id ≡ task_id t.project n)
    × (n ≤ p.next_seq)

-- The parent, if any, is in the same project and at a strictly higher level.
abbrev pub HasParent : Table Task → Task → Type 0
HasParent tasks t =
    (t.parent ≡ [])
    ⊎ ((pt : Task) × (lookup t.parent tasks ≡ some pt)
        × (pt.project ≡ t.project)
        × (Kind.level pt.kind < Kind.level t.kind))

-- A lease stands only on a task in progress that somebody holds.
abbrev pub IsLeaseSound : Task → Type 0
IsLeaseSound t = (t.lease_expires ≡ none) ⊎ ((t.status ≡ in_progress) × (t.assignee ≢ []))

pub record IsTask (projects : Table Project) (tasks : Table Task) (id : Str) (t : Task)
    : Type 0 where
  pub id_eq : t.id ≡ id
  pub numbered : Numbered projects id t
  pub status_valid : Status.valid t.status ≡ true
  pub priority_valid : Priority.valid t.priority ≡ true
  pub kind_valid : Kind.valid t.kind ≡ true
  pub dates_ordered : ends_before t.start_date t.end_date ≡ false
  pub parent : HasParent tasks t
  pub lease_sound : IsLeaseSound t

pub record IsProject (key : Str) (p : Project) : Type 0 where
  pub key_eq : p.key ≡ key
  pub key_valid : key_re key ≡ true

pub record IsUser (email : Str) (u : User) : Type 0 where
  pub email_eq : u.email ≡ email
  pub email_lower : to_lower email ≡ email
  pub hash_set : u.password_hash ≢ []
  pub salt_set : u.salt ≢ []
  pub iterations_set : 0 < u.iterations

-- The ids rise from `low`, and none is above `top`.
abbrev pub Rising : ℕ → List Activity → ℕ → Type 0
Rising low [] top = low ≤ top
Rising low (a ∷ rest) top = (low < a.id) × Rising a.id rest top

pub record IsConsistent (st : State) : Type 0 where
  pub projects_distinct : Distinct st.projects
  pub tasks_distinct : Distinct st.tasks
  pub agents_distinct : Distinct st.agents
  pub users_distinct : Distinct st.users
  pub task_ok :
      (id : Str) (t : Task) → lookup id st.tasks ≡ some t → IsTask st.projects st.tasks id t
  pub project_ok : (key : Str) (p : Project) → lookup key st.projects ≡ some p → IsProject key p
  pub agent_ok : (name : Str) (a : Agent) → lookup name st.agents ≡ some a → a.name ≡ name
  pub user_ok : (email : Str) (u : User) → lookup email st.users ≡ some u → IsUser email u
  pub activity_rising : Rising 0 st.activity st.next_activity_id
