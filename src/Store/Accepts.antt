-- ===== src/Store/Accepts.antt =====
-- store.go: ValidateState accepts every state that the board's calls lead to.
use agentboard.Prelude.{
  ℕ, ◌≤◌, ◌≡◌, ◌≢◌, ◌⊎◌, refl, sym, ap, ◌∙◌, true, false, Option, none, some, List, [], ◌∷◌, arith,
  ltb, leb, Str, str_eq_iff, str_eq_refl, Table, Distinct, lookup, lookup-insert, is_some, is_empty,
  All, inl, inr, length,
}
use agentboard.Prelude.Int.{pos}
use agentboard.Text.{to_lower}
use agentboard.Text.TaskId.{split_id, split_id-task_id}
use agentboard.Password.{Bytes, hash_size}
use agentboard.Model.Data.{Project, Task, Agent, User, Activity, State}
use agentboard.Board.Types.{ok, Board, Env}
use agentboard.Board.Calls.{Call, run, HaveSalts}
use agentboard.Board.Consistency.Rules.{HasParent, IsTask, IsProject, IsUser, Rising, IsConsistent}
use agentboard.Board.Consistency.Calls.{run-IsConsistent}
use agentboard.Store.Validate.{
  seq_of, raised, check_task, check_tasks, check_parent, check_parents, check_projects,
  check_agents, check_users, check_activity, validate_state,
}

entry_kept {ℓ} :
    {V : Type ℓ} (k : Str) (v : V) (m : Table V) (j : Str) (w : V)
    → lookup k m ≡ none
    → lookup j m ≡ some w
    → lookup j ((k, v) ∷ m) ≡ some w
unfolding lookup
entry_kept k v m j w gone found = ground (arith, str_eq_iff k j)

-- What holds of every lookup holds of every entry.
All-entries {ℓ κ} :
    {V : Type ℓ} (P : Str → V → Type κ) (m : Table V)
    → Distinct m
    → ((k : Str) (v : V) → lookup k m ≡ some v → P k v)
    → All (λ e. P e.0 e.1) m
unfolding lookup
All-entries P [] d h = tt
All-entries P ((k, v) ∷ m) d h = (
  h k v (rw (str_eq_refl k) refl),
  All-entries P m d.1 (λ j w found. h j w (entry_kept k v m j w d.0 found)),
)

check_agents-ok : (m : Table Agent) → All (λ e. e.1.name ≡ e.0) m → check_agents m ≡ ok tt
unfolding check_agents
check_agents-ok [] h = refl
check_agents-ok ((name, a) ∷ m) h = ground (arith, str_eq_iff a.name name, check_agents-ok m h.1)

check_users-ok : (m : Table User) → All (λ e. IsUser e.0 e.1) m → check_users m ≡ ok tt
unfolding check_users
check_users-ok [] h = refl
check_users-ok ((email, u) ∷ m) h =
    let v = h.0 in
    let hash = nonempty u.password_hash v.hash_set in
    let salt = nonempty u.salt v.salt_set in
    let work = v.iterations_set in
    ground (
      arith,
      (str_eq_iff u.email email).1 v.email_eq,
      (str_eq_iff email (to_lower email)).1 (sym v.email_lower),
      check_users-ok m h.1,
    )
  where
    nonempty : (bs : Bytes) → bs ≢ [] → is_empty bs ≡ false
    nonempty [] h = absurd (h refl)
    nonempty (b ∷ bs) h = refl

check_activity-ok :
    (low top : ℕ) (xs : List Activity)
    → Rising low xs top
    → (last : ℕ) × (check_activity low xs ≡ ok last) × (last ≤ top)
unfolding check_activity
check_activity-ok low top [] h = (low, refl, h)
check_activity-ok low top (a ∷ rest) h =
    let (last, e, le) = check_activity-ok a.id top rest h.1 in
    let above : leb a.id low ≡ false = let l = h.0 in ground arith in (last, rw above e, le)

-- No counter is behind.
AreCovered : Table Project → Table ℕ → Type 0
AreCovered projects seqs =
    (key : Str) (p : Project) → lookup key projects ≡ some p → seq_of key seqs ≤ p.next_seq

raised-AreCovered :
    (projects : Table Project) (seqs : Table ℕ) (key : Str) (p : Project) (n : ℕ)
    → lookup key projects ≡ some p
    → n ≤ p.next_seq
    → AreCovered projects seqs
    → AreCovered projects (raised key (pos n) seqs)
unfolding AreCovered raised seq_of
raised-AreCovered projects seqs key p n found le v j q at =
    let same : some p ≡ some q ⊎ key ≢ j = same_project projects key j p q found at in
    let old = v j q at in ground (arith, lookup-insert key j n seqs, str_eq_iff key j)
  where
    same_project :
        (projects : Table Project) (key j : Str) (p q : Project)
        → lookup key projects ≡ some p
        → lookup j projects ≡ some q
        → some p ≡ some q ⊎ key ≢ j
    same_project projects key j p q a b = ground (arith, str_eq_iff key j)

check_task-ok :
    (projects : Table Project) (tasks : Table Task) (id : Str) (t : Task)
    → IsTask projects tasks id t
    → check_task projects id t ≡ ok tt
unfolding check_task
check_task-ok projects tasks id t w =
    let (p, n, found, e, le) = w.numbered in
    let known : is_some (lookup t.project projects) ≡ true = ap is_some found in
    rw
      (
        (str_eq_iff t.id id).1 w.id_eq,
        known,
        w.status_valid,
        w.priority_valid,
        w.kind_valid,
        w.dates_ordered,
      )
      refl

check_tasks-ok :
    (projects : Table Project) (tasks m : Table Task) (seqs : Table ℕ)
    → ((key : Str) (p : Project) → lookup key projects ≡ some p → IsProject key p)
    → All (λ e. IsTask projects tasks e.0 e.1) m
    → AreCovered projects seqs
    → (seqs' : Table ℕ) × (check_tasks projects m seqs ≡ ok seqs') × AreCovered projects seqs'
unfolding check_tasks
check_tasks-ok projects tasks [] seqs keyed h v = (seqs, refl, v)
check_tasks-ok projects tasks ((id, t) ∷ m) seqs keyed h v =
    let (p, n, found, e, le) = h.0.numbered in
    let of_p = keyed t.project p found in
    let number : (split_id id).1 ≡ pos n =
      ap (λ i. (split_id i).1) e ∙ ap (λ r. r.1) (split_id-task_id t.project n of_p.key_valid) in
    let rest =
      check_tasks-ok projects tasks m (raised t.project (pos n) seqs) keyed h.1
        (raised-AreCovered projects seqs t.project p n found le v) in
    rw (check_task-ok projects tasks id t h.0, number) rest

check_parent-ok : (tasks : Table Task) (t : Task) → HasParent tasks t → check_parent tasks t ≡ ok tt
unfolding check_parent
check_parent-ok tasks t (inl none_set) = rw none_set refl
check_parent-ok tasks t (inr (p, found, same, above)) =
    ground (arith, str_eq_iff p.project t.project)

check_parents-ok :
    (projects : Table Project) (tasks m : Table Task)
    → All (λ e. IsTask projects tasks e.0 e.1) m
    → check_parents tasks m ≡ ok tt
unfolding check_parents
check_parents-ok projects tasks [] h = refl
check_parents-ok projects tasks ((id, t) ∷ m) h =
    rw (check_parent-ok tasks t h.0.parent) (check_parents-ok projects tasks m h.1)

check_projects-ok :
    (seqs : Table ℕ) (m : Table Project)
    → All (λ e. (e.1.key ≡ e.0) × (seq_of e.0 seqs ≤ e.1.next_seq)) m
    → check_projects seqs m ≡ ok tt
unfolding check_projects
check_projects-ok seqs [] h = refl
check_projects-ok seqs ((key, p) ∷ m) h =
    let (same, covered) = h.0 in
    let not_behind : ltb p.next_seq (seq_of key seqs) ≡ false = ground arith in
    rw ((str_eq_iff p.key key).1 same, not_behind) (check_projects-ok seqs m h.1)

-- A consistent state passes ValidateState.
pub IsConsistent-validate_state : (st : State) → IsConsistent st → validate_state st ≡ ok tt
unfolding validate_state AreCovered seq_of lookup
IsConsistent-validate_state st c =
    let tasks = All-entries (IsTask st.projects st.tasks) st.tasks c.tasks_distinct c.task_ok in
    let (seqs, e, covered) =
      check_tasks-ok st.projects st.tasks st.tasks [] c.project_ok tasks
        (λ key p found. omega arith) in
    let projects =
      All-entries (λ key p. (p.key ≡ key) × (seq_of key seqs ≤ p.next_seq)) st.projects
        c.projects_distinct
        (λ key p found. ((c.project_ok key p found).key_eq, covered key p found)) in
    let agents =
      All-entries (λ name (a : Agent). a.name ≡ name) st.agents c.agents_distinct c.agent_ok in
    let users = All-entries IsUser st.users c.users_distinct c.user_ok in
    let (last, f, le) = check_activity-ok 0 st.next_activity_id st.activity c.activity_rising in
    let not_behind : ltb st.next_activity_id last ≡ false = ground arith in
    rw
      (
        e,
        check_parents-ok st.projects st.tasks st.tasks tasks,
        check_projects-ok seqs st.projects projects,
        check_agents-ok st.agents agents,
        check_users-ok st.users users,
        f,
        not_behind,
      )
      refl

module _ (prf : Str → Bytes → Bytes)
    (sized : (key : Str) (msg : Bytes) → length (prf key msg) ≡ hash_size)
    (parse_address : Str → Option Str) where
  -- A board that starts from a consistent state never reaches a state that ValidateState, and so the
  -- next load, would refuse. The salts of new hashes are not empty, and HMAC-SHA256 has results of 32
  -- bytes.
  pub run-validate_state :
      (calls : List (Env × Call)) (b : Board)
      → HaveSalts calls
      → IsConsistent b.st
      → validate_state (run prf parse_address calls b).st ≡ ok tt
  run-validate_state calls b s c =
      IsConsistent-validate_state _ (run-IsConsistent prf sized parse_address calls b s c)
