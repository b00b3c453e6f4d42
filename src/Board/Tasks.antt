-- ===== src/Board/Tasks.antt =====
-- board.go: CreateProject, AddTask, Comment, and the check of a parent.
use agentboard.Prelude.{
  ℕ, ◌+◌, Bool, not, ◌||◌, Option, none, some, List, [], ◌++◌, ltb, leb, if◌then◌else◌, is_empty,
  is_some, Str, runes, str_eq, lookup, insert,
}
use agentboard.Text.{byte_len, trim_space, key_re}
use agentboard.Text.TaskId.{task_id}
use agentboard.Model.Status.{todo}
use agentboard.Model.Priority
use agentboard.Model.Priority.{Priority, medium}
use agentboard.Model.Kind
use agentboard.Model.Kind.{Kind}
use agentboard.Model.Data.{Time, Project, Task, State}
use agentboard.Board.Types.{
  Result, ok, err, ◌>>=◌, ◌>>◌, refuse_if, Error, not_found, invalid, exists, Reply, Event,
  EventType, Board, Env, NewTask,
}
use agentboard.Board.Inputs.{
  max_title, max_description, max_comment, require_actor, normalize_labels,
}
use agentboard.Board.Leases.{log, put_task, task_locked}
use agentboard.Board.Do.{event, Action, reply_of, do_locked}

-- `v == "" || len(v) > max`
abbrev pub bad_length : ℕ → Str → Bool
bad_length limit s = is_empty s || ltb limit (byte_len s)

-- A closure that returns an error has changed nothing.
abbrev pub refused {ℓ} : {A : Type ℓ} → State → Error → State × Option Event × Result A
refused st e = (st, none, err e)

-- `if err != nil { return nil, err }`, and the rest of the closure.
unfoldable pub on_ok {ℓ κ} :
    {I : Type ℓ} {A : Type κ}
    → State
    → Result I
    → (I → State × Option Event × Result A)
    → State × Option Event × Result A
on_ok st (err e) k = refused st e
on_ok st (ok i) k = k i

-- A method that checks its input before it takes the lock.
abbrev pub checked {ℓ κ} :
    {I : Type ℓ} {A : Type κ} → Result I → (I → Action A) → Env → Board → Board × Reply A
checked (err e) fn env b = (b, reply_of (err e))
checked (ok i) fn env b = do_locked (fn i) env b

unfoldable pub put_project : Str → Project → State → State
put_project key p st = record st { projects = insert key p st.projects }

unfoldable pub new_project : Str → Str → Time → Project
new_project key name now = record { key = key; name = name; next_seq = 0; created_at = now }

unfoldable pub create_project_action : Str → Str → Str → Action Project
create_project_action key name actor now st =
    on_ok st (refuse_if (is_some (lookup key st.projects)) exists) λ _. (
      log now actor [] (runes "project_created") (key ++ (runes " " ++ name))
          (put_project key (new_project key name now) st),
      some (event EventType.project []),
      ok (new_project key name now),
    )

unfoldable pub check_project : Str → Str → Str → Result (Str × Str)
check_project key name actor = do
  let trimmed = trim_space name
  refuse_if (not (key_re key)) invalid
  refuse_if (bad_length max_title trimmed) invalid
  actor' ← require_actor actor
  ok (trimmed, actor')

unfoldable pub create_project : Str → Str → Str → Env → Board → Board × Reply Project
unfolding check_project create_project_action
create_project key name actor =
    checked (check_project key name actor) (λ i. create_project_action key i.0 i.1)

-- A parent exists in the same project, at a strictly higher level.
unfoldable pub check_parent_locked : Str → Kind → Str → State → Result (Unit {0})
check_parent_locked project kind parent st =
    if is_empty parent then ok tt else elim (lookup parent st.tasks) [
      | none ↦ err not_found
      | some pt ↦
          if not (str_eq pt.project project)
          then err invalid
          else if leb (Kind.level kind) (Kind.level pt.kind)
          then err invalid
          else ok tt
    ]

-- What AddTask computes from its input before it takes the lock.
pub record TaskInput : Type 0 where
  pub title : Str
  pub priority : Priority
  pub kind : Kind
  pub labels : List Str
  pub actor : Str

abbrev default_priority : Priority → Priority
default_priority p = if Priority.eq p (Priority.unknown []) then medium else p

abbrev default_kind : Kind → Kind
default_kind k = if Kind.eq k (Kind.unknown []) then Kind.task else k

unfoldable pub check_task : NewTask → Result TaskInput
unfolding Priority.eq Kind.eq
check_task new = do
  let title = trim_space new.title
  refuse_if (bad_length max_title title) invalid
  refuse_if (ltb max_description (byte_len new.description)) invalid
  let priority = default_priority new.priority
  refuse_if (not (Priority.valid priority)) invalid
  let kind = default_kind new.kind
  refuse_if (not (Kind.valid kind)) invalid
  labels ← normalize_labels new.labels
  actor ← require_actor new.actor
  ok (record { title = title; priority = priority; kind = kind; labels = labels; actor = actor })

abbrev pub next_task : NewTask → TaskInput → Time → Project → Task
next_task new i now p = record {
  id = task_id p.key (p.next_seq + 1);
  project = p.key;
  kind = i.kind;
  parent = new.parent;
  title = i.title;
  description = new.description;
  status = todo;
  priority = i.priority;
  labels = i.labels;
  assignee = [];
  lease_expires = none;
  lease_seconds = 0;
  created_by = i.actor;
  updated_by = i.actor;
  created_at = now;
  updated_at = now;
  start_date = none;
  end_date = none;
}

abbrev project_locked : Str → State → Result Project
project_locked key st = elim (lookup key st.projects) [ none ↦ err not_found | some p ↦ ok p ]

-- The project that gets the task, once its parent is checked.
unfoldable pub check_placement : NewTask → Kind → State → Result Project
check_placement new kind st = do
  p ← project_locked new.project st
  check_parent_locked p.key kind new.parent st
  ok p

abbrev pub counted : Project → Project
counted p = record p { next_seq = p.next_seq + 1 }

unfoldable pub add_task_action : NewTask → TaskInput → Action Task
add_task_action new i now st = on_ok st (check_placement new i.kind st) λ p.
    let t = next_task new i now p in
    (
      log now i.actor t.id (runes "created") i.title
          (put_task t.id t (put_project new.project (counted p) st)),
      some (event EventType.task t.id),
      ok t,
    )

unfoldable pub add_task : NewTask → Env → Board → Board × Reply Task
unfolding check_task add_task_action
add_task new = checked (check_task new) (λ i. add_task_action new i)

unfoldable pub comment_action : Str → Str → Str → Action (Unit {0})
comment_action id actor text now st = on_ok st (task_locked id st) λ t. (
  log now actor id (runes "comment") text
      (put_task id (record t { updated_at = now; updated_by = actor }) st),
  some (event EventType.task id),
  ok tt,
)

unfoldable pub check_comment : Str → Str → Result (Str × Str)
check_comment actor text = do
  let trimmed = trim_space text
  refuse_if (bad_length max_comment trimmed) invalid
  actor' ← require_actor actor
  ok (actor', trimmed)

unfoldable pub comment : Str → Str → Str → Env → Board → Board × Reply (Unit {0})
unfolding check_comment comment_action
comment id actor text = checked (check_comment actor text) (λ i. comment_action id i.0 i.1)
