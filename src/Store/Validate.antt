-- ===== src/Store/Validate.antt =====
-- store.go: ValidateState and migrate. Every error is ErrInvalid, and a map holds no nil pointer.
use agentboard.Prelude.{
  ℕ, not, ◌||◌, none, some, List, [], ◌∷◌, ltb, leb, if◌then◌else◌, ◌==◌, Str, str_eq, Table,
  lookup, insert, is_some, is_empty, map_values,
}
use agentboard.Prelude.Int.{ℤ, pos, pos_part, ltb_ℤ}
use agentboard.Text.{to_lower}
use agentboard.Text.TaskId.{split_id}
use agentboard.Model.Status
use agentboard.Model.Priority
use agentboard.Model.Priority.{Priority, medium}
use agentboard.Model.Kind
use agentboard.Model.Kind.{Kind}
use agentboard.Model.Data.{Project, Task, Agent, User, Activity, State, schema_version}
use agentboard.Board.Types.{Result, ok, err, ◌>>=◌, ◌>>◌, refuse_if, invalid}
use agentboard.Board.Update.{ends_before}

-- `maxSeq[key]`, which starts at 0.
unfoldable pub seq_of : Str → Table ℕ → ℕ
seq_of key seqs = elim (lookup key seqs) [ none ↦ 0 | some n ↦ n ]

unfoldable pub raised : Str → ℤ → Table ℕ → Table ℕ
raised key n seqs =
    if ltb (seq_of key seqs) (pos_part n) then insert key (pos_part n) seqs else seqs

-- The first loop: each task by itself, and the highest number of each project.
unfoldable pub check_task : Table Project → Str → Task → Result (Unit {0})
check_task projects id t = do
  refuse_if (not (str_eq t.id id)) invalid
  refuse_if (not (is_some (lookup t.project projects))) invalid
  refuse_if (not (Status.valid t.status)) invalid
  refuse_if (not (Priority.valid t.priority)) invalid
  refuse_if (not (Kind.valid t.kind)) invalid
  refuse_if (ends_before t.start_date t.end_date) invalid

unfoldable pub check_tasks : Table Project → Table Task → Table ℕ → Result (Table ℕ)
check_tasks projects [] seqs = ok seqs
check_tasks projects ((id, t) ∷ m) seqs = do
  check_task projects id t
  check_tasks projects m (raised t.project (split_id id).1 seqs)

unfoldable pub check_parent : Table Task → Task → Result (Unit {0})
check_parent tasks t = if is_empty t.parent then ok tt else elim (lookup t.parent tasks) [
  | none ↦ err invalid
  | some p ↦
      if not (str_eq p.project t.project)
      then err invalid
      else if leb (Kind.level t.kind) (Kind.level p.kind)
      then err invalid
      else ok tt
]

unfoldable pub check_parents : Table Task → Table Task → Result (Unit {0})
check_parents tasks [] = ok tt
check_parents tasks ((id, t) ∷ m) = do check_parent tasks t; check_parents tasks m

unfoldable pub check_projects : Table ℕ → Table Project → Result (Unit {0})
check_projects seqs [] = ok tt
check_projects seqs ((key, p) ∷ m) = do
  refuse_if (not (str_eq p.key key)) invalid
  refuse_if (ltb p.next_seq (seq_of key seqs)) invalid
  check_projects seqs m

unfoldable pub check_agents : Table Agent → Result (Unit {0})
check_agents [] = ok tt
check_agents ((name, a) ∷ m) = do refuse_if (not (str_eq a.name name)) invalid; check_agents m

unfoldable pub check_users : Table User → Result (Unit {0})
check_users [] = ok tt
check_users ((email, u) ∷ m) = do
  refuse_if (not (str_eq u.email email)) invalid
  refuse_if (not (str_eq email (to_lower email))) invalid
  refuse_if (is_empty u.password_hash || is_empty u.salt || u.iterations == 0) invalid
  check_users m

-- The last id of the log, if the ids rise.
unfoldable pub check_activity : ℕ → List Activity → Result ℕ
check_activity prev [] = ok prev
check_activity prev (a ∷ rest) = do refuse_if (leb a.id prev) invalid; check_activity a.id rest

unfoldable pub validate_state : State → Result (Unit {0})
validate_state st = do
  seqs ← check_tasks st.projects st.tasks []
  check_parents st.tasks st.tasks
  check_projects seqs st.projects
  check_agents st.agents
  check_users st.users
  last ← check_activity 0 st.activity
  refuse_if (ltb st.next_activity_id last) invalid

-- The defaults of a file without a version.
unfoldable pub with_defaults : Task → Task
unfolding Kind.eq Priority.eq
with_defaults t = record t {
  kind = (if Kind.eq t.kind (Kind.unknown []) then Kind.task else t.kind);
  priority = (if Priority.eq t.priority (Priority.unknown []) then medium else t.priority);
}

unfoldable pub migrate : State → State
unfolding with_defaults
migrate st = record st {
  tasks = (if ltb_ℤ st.version (pos 1) then map_values with_defaults st.tasks else st.tasks);
  version = pos schema_version;
}
