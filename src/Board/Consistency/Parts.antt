-- ===== src/Board/Consistency/Parts.antt =====
-- The writes that the operations are made of keep a state consistent.
use agentboard.Prelude.{
  ℕ, ◌<◌, ◌≡◌, refl, ◌⊎◌, inl, inr, Option, none, some, List, [], ◌∷◌, ◌++◌, arith, Str, str_eq,
  str_eq_iff, Bool-cases, Option-cases, Table, lookup, insert, lookup-insert, lookup-insert_self,
  insert-Distinct, sort_by,
}
use mathlib.Core.Path.{subst₂}
use agentboard.Text.TaskId.{id_less}
use agentboard.Model.Status
use agentboard.Model.Status.{todo}
use agentboard.Model.Data.{Project, Task, Agent, Activity, State, Time}
use agentboard.Board.Leases.{
  log, put_task, put_agent, clear_current_locked, touched, touch_agent_locked, swept,
  release_expired, release_all, sweep_locked, expired_ids,
}
use agentboard.Board.Consistency.Rules.{HasParent, IsTask, IsConsistent, Rising}

-- A value of the map after a write is the written one, or was there before.
pub lookup-insert_cases {ℓ} :
    {V : Type ℓ} (k j : Str) (v w : V) (m : Table V)
    → lookup j (insert k v m) ≡ some w
    → ((k ≡ j) × (v ≡ w)) ⊎ (lookup j m ≡ some w)
lookup-insert_cases k j v w m h = ground (arith, lookup-insert k j v m, str_eq_iff k j)

Rising-append :
    (low top : ℕ) (xs : List Activity) (a : Activity)
    → top < a.id
    → Rising low xs top
    → Rising low (xs ++ a ∷ []) a.id
Rising-append low top [] a h r = (omega arith, omega arith)
Rising-append low top (x ∷ xs) a h r = (r.0, Rising-append x.id top xs a h r.1)

pub log-IsConsistent :
    (now : Time) (actor task_id action detail : Str) (st : State)
    → IsConsistent st
    → IsConsistent (log now actor task_id action detail st)
unfolding log
log-IsConsistent now actor task_id action detail st c = record {
  projects_distinct = c.projects_distinct;
  tasks_distinct = c.tasks_distinct;
  agents_distinct = c.agents_distinct;
  users_distinct = c.users_distinct;
  task_ok = c.task_ok;
  project_ok = c.project_ok;
  agent_ok = c.agent_ok;
  user_ok = c.user_ok;
  activity_rising =
      Rising-append 0 st.next_activity_id st.activity _ (omega arith) c.activity_rising;
}

pub put_agent-IsConsistent :
    (name : Str) (a : Agent) (st : State)
    → a.name ≡ name
    → IsConsistent st
    → IsConsistent (put_agent name a st)
unfolding put_agent
put_agent-IsConsistent name a st e c = record {
  projects_distinct = c.projects_distinct;
  tasks_distinct = c.tasks_distinct;
  agents_distinct = insert-Distinct name a st.agents c.agents_distinct;
  users_distinct = c.users_distinct;
  task_ok = c.task_ok;
  project_ok = c.project_ok;
  agent_ok = λ k b h. elim (lookup-insert_cases name k a b st.agents h) [
    | inl (p, q) ↦ cc
    | inr old ↦ c.agent_ok k b old
  ];
  user_ok = c.user_ok;
  activity_rising = c.activity_rising;
}

pub clear_current_locked-IsConsistent :
    (agent task_id : Str) (st : State)
    → IsConsistent st
    → IsConsistent (clear_current_locked agent task_id st)
unfolding clear_current_locked
clear_current_locked-IsConsistent agent task_id st c =
    elim (Option-cases (lookup agent st.agents)) [
      | inl e ↦ rw (e, clear_current_locked) c
      | inr (a, e) ↦
          let kept =
            put_agent-IsConsistent agent (record a { current_task = [] }) st (c.agent_ok agent a e)
              c in
          rw (e, clear_current_locked) (ground arith)
    ]

pub touched-name :
    (name kind task_id : Str) (now : Time) (found : Option Agent)
    → ((a : Agent) → found ≡ some a → a.name ≡ name)
    → (touched name kind task_id now found).name ≡ name
unfolding touched
touched-name name kind task_id now none h = refl
touched-name name kind task_id now (some a) h = h a refl

pub touch_agent_locked-IsConsistent :
    (name kind task_id : Str) (now : Time) (st : State)
    → IsConsistent st
    → IsConsistent (touch_agent_locked name kind task_id now st)
unfolding touch_agent_locked
touch_agent_locked-IsConsistent name kind task_id now st c =
    put_agent-IsConsistent name _ st
      (touched-name name kind task_id now (lookup name st.agents) (c.agent_ok name)) c

-- A rewritten task keeps its id, its project and its kind.
pub record SameIdentity (t u : Task) : Type 0 where
  pub id_kept : u.id ≡ t.id
  pub project_kept : u.project ≡ t.project
  pub kind_kept : u.kind ≡ t.kind

module _ (id : Str) (t t' : Task) (tasks : Table Task) (found : lookup id tasks ≡ some t)
    (same : SameIdentity t t') where
  HasParent-insert : (u : Task) → HasParent tasks u → HasParent (insert id t' tasks) u
  HasParent-insert u (inl e) = inl e
  HasParent-insert u (inr (pt, l, p, k)) = elim (Bool-cases (str_eq id u.parent)) [
    | inl hit ↦
        let e = (str_eq_iff id u.parent).0 hit in
        let same_parent : t ≡ pt = cc in
        inr (
          t',
          rw (← e) (lookup-insert_self id t' tasks),
          rw (same.project_kept, same_parent) p,
          rw (same.kind_kept, same_parent) k,
        )
    | inr miss ↦ inr (pt, rw (lookup-insert id u.parent t' tasks, miss) l, p, k)
  ]

  IsTask-insert :
      (projects : Table Project) (k : Str) (u : Task)
      → IsTask projects tasks k u
      → IsTask projects (insert id t' tasks) k u
  IsTask-insert projects k u v = record {
    id_eq = v.id_eq;
    numbered = v.numbered;
    status_valid = v.status_valid;
    priority_valid = v.priority_valid;
    kind_valid = v.kind_valid;
    dates_ordered = v.dates_ordered;
    parent = HasParent-insert u v.parent;
    lease_sound = v.lease_sound;
  }

-- Writing a task that keeps its identity and satisfies the rules keeps the state consistent.
pub put_task-IsConsistent :
    (id : Str) (t t' : Task) (st : State)
    → lookup id st.tasks ≡ some t
    → SameIdentity t t'
    → IsTask st.projects st.tasks id t'
    → IsConsistent st
    → IsConsistent (put_task id t' st)
unfolding put_task
put_task-IsConsistent id t t' st found same v c = record {
  projects_distinct = c.projects_distinct;
  tasks_distinct = insert-Distinct id t' st.tasks c.tasks_distinct;
  agents_distinct = c.agents_distinct;
  users_distinct = c.users_distinct;
  task_ok = λ k u h.
      IsTask-insert id t t' st.tasks found same st.projects k u
        (elim (lookup-insert_cases id k t' u st.tasks h) [
          | inl (p, q) ↦ subst₂ (IsTask st.projects st.tasks) p q v
          | inr old ↦ c.task_ok k u old
        ]);
  project_ok = c.project_ok;
  agent_ok = c.agent_ok;
  user_ok = c.user_ok;
  activity_rising = c.activity_rising;
}

-- The task that the sweep hands back satisfies the rules.
swept-IsTask :
    (now : Time) (id : Str) (t : Task) (st : State)
    → IsTask st.projects st.tasks id t
    → IsTask st.projects st.tasks id (swept now t)
unfolding swept Status.valid
swept-IsTask now id t st v = ground arith

release_expired-IsConsistent :
    (now : Time) (id : Str) (st : State)
    → IsConsistent st
    → IsConsistent (release_expired now id st)
unfolding release_expired
release_expired-IsConsistent now id st c = elim (Option-cases (lookup id st.tasks)) [
  | inl e ↦ rw (e, release_expired) c
  | inr (t, e) ↦
      rw (e, release_expired)
        (log-IsConsistent now _ _ _ _ _ (
          clear_current_locked-IsConsistent t.assignee id _ (
            put_task-IsConsistent id t (swept now t) st e
              (unfold swept in record { id_kept = refl; project_kept = refl; kind_kept = refl })
              (swept-IsTask now id t st (c.task_ok id t e)) c)))
]

release_all-IsConsistent :
    (now : Time) (ids : List Str) (st : State)
    → IsConsistent st
    → IsConsistent (release_all now ids st)
unfolding release_all
release_all-IsConsistent now [] st c = c
release_all-IsConsistent now (id ∷ ids) st c =
    release_all-IsConsistent now ids _ (release_expired-IsConsistent now id st c)

-- The sweep keeps a state consistent.
pub sweep_locked-IsConsistent :
    (now : Time) (st : State) → IsConsistent st → IsConsistent (sweep_locked now st).0
unfolding sweep_locked
sweep_locked-IsConsistent now st c =
    release_all-IsConsistent now (sort_by id_less (expired_ids now st.tasks)) st c
