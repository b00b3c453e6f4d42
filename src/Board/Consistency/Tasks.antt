-- ===== src/Board/Consistency/Tasks.antt =====
-- CreateProject, AddTask and Comment keep a state consistent, and a new task's id is free.
use mathlib.Core.Path.{subst₂}
use agentboard.Prelude.{
  ◌+◌, ◌≤◌, ◌<◌, ◌≡◌, refl, sym, subst, ◌∙◌, ◌⊎◌, inl, inr, true, none, some, [], ◌∷◌, arith, Str,
  str_eq, str_eq_iff, Bool-cases, Option-cases, lookup, insert, insert-Distinct, lookup-insert,
  lookup-insert_self, lookup-insert_ne, is_some,
}
use agentboard.Text.{key_re}
use agentboard.Text.TaskId.{task_id, task_id-injective}
use agentboard.Model.Kind
use agentboard.Model.Kind.{Kind}
use agentboard.Model.Status
use agentboard.Model.Priority
use agentboard.Model.Data.{Project, Task, State, Time}
use agentboard.Board.Types.{ok, NewTask, exists, refuse_if}
use agentboard.Board.Leases.{put_task, task_locked}
use agentboard.Board.Tasks.{
  TaskInput, put_project, new_project, create_project_action, check_parent_locked, check_placement,
  counted, next_task, add_task_action, comment_action, check_task,
}
use agentboard.Board.Consistency.Rules.{HasParent, IsTask, IsProject, IsConsistent, Numbered}
use agentboard.Board.Consistency.Parts.{
  put_task-IsConsistent, log-IsConsistent, lookup-insert_cases,
}
use agentboard.Board.Consistency.Keeps.{KeepsConsistent, on_ok-IsConsistent}

-- Writing a project keeps its tasks numbered, if its counter does not fall.
module _ (key : Str) (p : Project) (st : State) (c : IsConsistent st) where
  Numbered-put_project :
      ((q : Project) → lookup key st.projects ≡ some q → q.next_seq ≤ p.next_seq)
      → (id : Str) (t : Task) → Numbered st.projects id t
      → Numbered (insert key p st.projects) id t
  Numbered-put_project grows id t (q, n, found, e, le) = elim (Bool-cases (str_eq key t.project)) [
    | inl hit ↦
        let same = (str_eq_iff key t.project).0 hit in
        (
          p,
          n,
          rw (← same) (lookup-insert_self key p st.projects),
          e,
          omega (arith, grows q (rw same found)),
        )
    | inr miss ↦ (q, n, rw (lookup-insert key t.project p st.projects, miss) found, e, le)
  ]

  put_project-IsConsistent :
      ((q : Project) → lookup key st.projects ≡ some q → q.next_seq ≤ p.next_seq)
      → IsProject key p
      → IsConsistent (put_project key p st)
  unfolding put_project
  put_project-IsConsistent grows v = record {
    projects_distinct = insert-Distinct key p st.projects c.projects_distinct;
    tasks_distinct = c.tasks_distinct;
    agents_distinct = c.agents_distinct;
    users_distinct = c.users_distinct;
    task_ok = λ id t h.
        let u = c.task_ok id t h in
        record {
          id_eq = u.id_eq;
          numbered = Numbered-put_project grows id t u.numbered;
          status_valid = u.status_valid;
          priority_valid = u.priority_valid;
          kind_valid = u.kind_valid;
          dates_ordered = u.dates_ordered;
          parent = u.parent;
          lease_sound = u.lease_sound;
        };
    project_ok = λ k q h. elim (lookup-insert_cases key k p q st.projects h) [
      | inl (a, b) ↦ subst₂ IsProject a b v
      | inr old ↦ c.project_ok k q old
    ];
    agent_ok = c.agent_ok;
    user_ok = c.user_ok;
    activity_rising = c.activity_rising;
  }

-- Adding a task under a free id keeps the state consistent, if the task satisfies the rules.
add_free-IsConsistent :
    (id : Str) (t : Task) (st : State)
    → lookup id st.tasks ≡ none
    → IsTask st.projects st.tasks id t
    → IsConsistent st
    → IsConsistent (put_task id t st)
unfolding put_task
add_free-IsConsistent id t st free v c = record {
  projects_distinct = c.projects_distinct;
  tasks_distinct = insert-Distinct id t st.tasks c.tasks_distinct;
  agents_distinct = c.agents_distinct;
  users_distinct = c.users_distinct;
  task_ok = λ k u h. elim (lookup-insert_cases id k t u st.tasks h) [
    | inl (p, q) ↦ subst₂ (IsTask st.projects (insert id t st.tasks)) p q (grown id t v)
    | inr old ↦ grown k u (c.task_ok k u old)
  ];
  project_ok = c.project_ok;
  agent_ok = c.agent_ok;
  user_ok = c.user_ok;
  activity_rising = c.activity_rising;
}
  where
    grown_parent : (u : Task) → HasParent st.tasks u → HasParent (insert id t st.tasks) u
    grown_parent u (inl e) = inl e
    grown_parent u (inr (pt, l, p, k)) =
        inr (pt, lookup-insert_ne id u.parent t st.tasks (λ e. cc) ∙ l, p, k)

    grown :
        (k : Str) (u : Task)
        → IsTask st.projects st.tasks k u
        → IsTask st.projects (insert id t st.tasks) k u
    grown k u w = record {
      id_eq = w.id_eq;
      numbered = w.numbered;
      status_valid = w.status_valid;
      priority_valid = w.priority_valid;
      kind_valid = w.kind_valid;
      dates_ordered = w.dates_ordered;
      parent = grown_parent u w.parent;
      lease_sound = w.lease_sound;
    }

pub next_id_free :
    (st : State) (p : Project) (key : Str)
    → IsConsistent st
    → lookup key st.projects ≡ some p
    → lookup (task_id p.key (p.next_seq + 1)) st.tasks ≡ none
next_id_free st p key c found =
    elim (Option-cases (lookup (task_id p.key (p.next_seq + 1)) st.tasks)) [
      | inl e ↦ e
      | inr (u, e) ↦ absurd (taken u (c.task_ok _ u e).numbered)
    ]
  where
    taken : (u : Task) → ¬ Numbered st.projects (task_id p.key (p.next_seq + 1)) u
    taken u (q, n, at, e, le) =
        let of_p = c.project_ok key p found in
        let of_q = c.project_ok u.project q at in
        let (same, number) =
          task_id-injective p.key u.project (p.next_seq + 1) n (rw of_p.key_eq of_p.key_valid)
            of_q.key_valid e in
        let same_project : some p ≡ some q = cc in
        let same_seq : p.next_seq ≡ q.next_seq = cc in omega arith

some_of_none :
    (key : Str) (st : State) (q : Project)
    → lookup key st.projects ≡ some q
    → ¬ (lookup key st.projects ≡ none)
some_of_none key st q found h = cc

create_project_new :
    (key : Str) (st : State)
    → refuse_if (is_some (lookup key st.projects)) exists ≡ ok tt
    → lookup key st.projects ≡ none
create_project_new key st h = ground arith

pub create_project_action-KeepsConsistent :
    (key name actor : Str)
    → key_re key ≡ true
    → KeepsConsistent (create_project_action key name actor)
unfolding create_project_action new_project
create_project_action-KeepsConsistent key name actor valid now st c =
    on_ok-IsConsistent st _ _ c λ _ h. log-IsConsistent now actor [] _ _ _ (
      put_project-IsConsistent key (new_project key name now) st c
        (λ q found. absurd (some_of_none key st q found (create_project_new key st h)))
        (record { key_eq = refl; key_valid = valid }))

-- What the checks of a new task establish.
pub check_parent_locked-HasParent :
    (project : Str) (kind : Kind) (parent : Str) (st : State)
    → check_parent_locked project kind parent st ≡ ok tt
    → (parent ≡ [])
      ⊎ ((pt : Task) × (lookup parent st.tasks ≡ some pt)
          × (pt.project ≡ project)
          × (Kind.level pt.kind < Kind.level kind))
unfolding check_parent_locked
check_parent_locked-HasParent project kind [] st h = inl refl
check_parent_locked-HasParent project kind (x ∷ xs) st h =
    elim (Option-cases (lookup (x ∷ xs) st.tasks)) [
      | inl e ↦ absurd (ground arith)
      | inr (pt, e) ↦ inr (pt, e, ground (arith, str_eq_iff pt.project project), ground arith)
    ]

check_placement_lem :
    (new : NewTask) (kind : Kind) (st : State) (p : Project)
    → check_placement new kind st ≡ ok p
    → (lookup new.project st.projects ≡ some p)
      × (check_parent_locked p.key kind new.parent st ≡ ok tt)
unfolding check_placement
check_placement_lem new kind st p h = ground arith

pub check_task_lem :
    (new : NewTask) (i : TaskInput)
    → check_task new ≡ ok i
    → (Priority.valid i.priority ≡ true) × (Kind.valid i.kind ≡ true)
unfolding check_task
check_task_lem new i h = ground arith

module _ (new : NewTask) (i : TaskInput) (now : Time) (p : Project) (st : State)
    (c : IsConsistent st) (found : lookup new.project st.projects ≡ some p) where
  key_eq : p.key ≡ new.project
  key_eq = (c.project_ok new.project p found).key_eq

  put_counted-IsConsistent : IsConsistent (put_project new.project (counted p) st)
  put_counted-IsConsistent =
      put_project-IsConsistent new.project (counted p) st c
        (λ q at.
          let same : some p ≡ some q = cc in let seq : p.next_seq ≡ q.next_seq = cc in omega arith)
        (record { key_eq = key_eq; key_valid = (c.project_ok new.project p found).key_valid })

  counted_found : lookup p.key (insert new.project (counted p) st.projects) ≡ some (counted p)
  counted_found =
      subst (λ k. lookup k (insert new.project (counted p) st.projects) ≡ some (counted p))
        (sym key_eq) (lookup-insert_self new.project (counted p) st.projects)

  next_task-IsTask :
      Priority.valid i.priority ≡ true
      → Kind.valid i.kind ≡ true
      → check_parent_locked p.key i.kind new.parent st ≡ ok tt
      → IsTask
          (insert new.project (counted p) st.projects)
          st.tasks
          (task_id p.key (p.next_seq + 1))
          (next_task new i now p)
  unfolding Status.valid
  next_task-IsTask vp vk parent = record {
    id_eq = refl;
    numbered = (counted p, p.next_seq + 1, counted_found, refl, omega arith);
    status_valid = refl;
    priority_valid = vp;
    kind_valid = vk;
    dates_ordered = refl;
    parent = check_parent_locked-HasParent p.key i.kind new.parent st parent;
    lease_sound = inl refl;
  }

  put_next-IsConsistent :
      Priority.valid i.priority ≡ true
      → Kind.valid i.kind ≡ true
      → check_parent_locked p.key i.kind new.parent st ≡ ok tt
      → IsConsistent (
          put_task
            (task_id p.key (p.next_seq + 1))
            (next_task new i now p)
            (put_project new.project (counted p) st))
  put_next-IsConsistent vp vk parent =
      add_free-IsConsistent (task_id p.key (p.next_seq + 1)) (next_task new i now p) _
        (unfold put_project in next_id_free st p new.project c found)
        (unfold put_project in next_task-IsTask vp vk parent) put_counted-IsConsistent

pub add_task_action-KeepsConsistent :
    (new : NewTask) (i : TaskInput)
    → check_task new ≡ ok i
    → KeepsConsistent (add_task_action new i)
unfolding add_task_action
add_task_action-KeepsConsistent new i checks now st c = on_ok-IsConsistent st _ _ c λ p h.
    let (found, parent) = check_placement_lem new i.kind st p h in
    let (vp, vk) = check_task_lem new i checks in
    log-IsConsistent now i.actor _ _ _ _ (put_next-IsConsistent new i now p st c found vp vk parent)

task_locked-lookup :
    (id : Str) (st : State) (t : Task) → task_locked id st ≡ ok t → lookup id st.tasks ≡ some t
unfolding task_locked
task_locked-lookup id st t h = ground arith

pub comment_action-KeepsConsistent :
    (id actor text : Str) → KeepsConsistent (comment_action id actor text)
unfolding comment_action
comment_action-KeepsConsistent id actor text now st c = on_ok-IsConsistent st _ _ c λ t h.
    let found = task_locked-lookup id st t h in
    let v = c.task_ok id t found in
    let t' = record t { updated_at = now; updated_by = actor } in
    log-IsConsistent now actor id _ _ _ (
      put_task-IsConsistent id t t' st found
        (record { id_kept = refl; project_kept = refl; kind_kept = refl }) (ground arith) c)
