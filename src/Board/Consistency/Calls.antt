-- ===== src/Board/Consistency/Calls.antt =====
-- Every history of calls keeps a board's state consistent.
use agentboard.Prelude.{
  ℕ, ◌≤◌, ◌≡◌, refl, ◌∙◌, true, Option, none, some, List, [], ◌∷◌, arith, Str, length, lookup,
  map_values, lookup-map_values, map_values-Distinct,
}
use agentboard.Prelude.Int.{ℤ}
use agentboard.Text.{key_re, name_re}
use agentboard.Password.{Bytes, hash_size}
use agentboard.Model.Data.{Activity, State, Time, new_state}
use agentboard.Board.Types.{ok, Error, EventType, Board, Env}
use agentboard.Board.Leases.{sweep_locked}
use agentboard.Board.Do.{sweep, persist_and_publish_locked, event, mark_dirty}
use agentboard.Board.Tasks.{
  create_project, check_project, create_project_action, add_task, check_task, add_task_action,
  comment, check_comment, comment_action,
}
use agentboard.Board.Claims.{
  claim, check_claim, claim_action, release, complete, check_agent, complete_action, heartbeat,
  check_heartbeat, heartbeat_action,
}
use agentboard.Board.Update.{update, check_patch, update_action}
use agentboard.Board.Saving.{
  drop_archived, drop_through, save_dirty, archive_then_save, archive_batch, begin_save,
  finish_save, save_now, flush, close, offline, stop_agents, shutdown,
}
use agentboard.Board.Queries.{tasks}
use agentboard.Board.Calls.{
  Call, creates_project, adds_task, comments, claims, releases, completes, updates, beats, sweeps,
  reads, registers, logs_in, flushes, closes, shuts_down, perform, run, HasSalt, HaveSalts,
}
use agentboard.Board.Consistency.Rules.{IsConsistent, Rising}
use agentboard.Board.Consistency.Parts.{log-IsConsistent, sweep_locked-IsConsistent}
use agentboard.Board.Consistency.Keeps.{
  do_locked-IsConsistent, checked-IsConsistent, persist_and_publish_locked-st,
}
use agentboard.Board.Consistency.Claims.{
  claim_action-KeepsConsistent, release_action-KeepsConsistent, complete_action-KeepsConsistent,
  name_re-ne-nil,
}
use agentboard.Board.Consistency.Heartbeat.{heartbeat_action-KeepsConsistent, map_option-eq_some}
use agentboard.Board.Consistency.Tasks.{
  create_project_action-KeepsConsistent, add_task_action-KeepsConsistent,
  comment_action-KeepsConsistent,
}
use agentboard.Board.Consistency.Update.{update_action-KeepsConsistent}
use agentboard.Board.Consistency.Accounts.{register-IsConsistent, authenticate-IsConsistent}

check_project-key :
    (key name actor : Str) (i : Str × Str) → check_project key name actor ≡ ok i → key_re key ≡ true
unfolding check_project
check_project-key key name actor i h = ground arith

check_claim-agent :
    (agent : Str) (lease : ℤ) (default l : ℕ)
    → check_claim agent lease default ≡ ok l
    → name_re agent ≡ true
unfolding check_claim
check_claim-agent agent lease default l h = ground arith

mark_dirty-st : (now : Time) (b : Board) → (mark_dirty now b).st ≡ b.st
mark_dirty-st now b = ground arith

sweep-st : (env : Env) (b : Board) → (sweep env b).0.st ≡ (sweep_locked env.now b.st).0
unfolding sweep
sweep-st env b =
    let kept =
      persist_and_publish_locked-st env (event EventType.sweep [])
        (record b { st = (sweep_locked env.now b.st).0 }) in
    ground arith

Rising-weaken :
    (low below top : ℕ) (xs : List Activity) → below ≤ low → Rising low xs top → Rising below xs top
Rising-weaken low below top [] h r = omega arith
Rising-weaken low below top (a ∷ rest) h r = (omega arith, r.1)

Rising-drop_through :
    (low top cut : ℕ) (xs : List Activity)
    → Rising low xs top
    → Rising low (drop_through cut xs) top
unfolding drop_through
Rising-drop_through low top cut [] r = r
Rising-drop_through low top cut (a ∷ rest) r =
    let dropped =
      Rising-drop_through low top cut rest (Rising-weaken a.id low top rest (omega arith) r.1) in
    ground arith

drop_archived-IsConsistent :
    (now : Time) (batch : List Activity) (b : Board)
    → IsConsistent b.st
    → IsConsistent (drop_archived now batch b).st
unfolding drop_archived
drop_archived-IsConsistent now [] b c = c
drop_archived-IsConsistent now (a ∷ rest) b c = rw (mark_dirty-st now _) (record {
  projects_distinct = c.projects_distinct;
  tasks_distinct = c.tasks_distinct;
  agents_distinct = c.agents_distinct;
  users_distinct = c.users_distinct;
  task_ok = c.task_ok;
  project_ok = c.project_ok;
  agent_ok = c.agent_ok;
  user_ok = c.user_ok;
  activity_rising = Rising-drop_through 0 _ _ b.st.activity c.activity_rising;
})

begin_save-st : (b : Board) → (begin_save b).0.st ≡ b.st
unfolding begin_save
begin_save-st b = ground arith

finish_save-st :
    (env : Env) (snap : Option State) (b : Board) → (finish_save env snap b).0.st ≡ b.st
unfolding finish_save
finish_save-st env none b = refl
finish_save-st env (some snap) b = ground arith

save_dirty-st : (env : Env) (b : Board) → (save_dirty env b).0.st ≡ b.st
unfolding save_dirty
save_dirty-st env b = finish_save-st env (begin_save b).1 (begin_save b).0 ∙ begin_save-st b

archive_then_save-IsConsistent :
    (archive_error : Option Error) (batch : List Activity) (env : Env) (b : Board)
    → IsConsistent b.st
    → IsConsistent (archive_then_save archive_error batch env b).0.st
unfolding archive_then_save
archive_then_save-IsConsistent archive_error [] env b c = rw (save_dirty-st env b) c
archive_then_save-IsConsistent none (a ∷ rest) env b c =
    rw (save_dirty-st env (drop_archived env.now (a ∷ rest) b))
      (drop_archived-IsConsistent env.now (a ∷ rest) b c)
archive_then_save-IsConsistent (some e) (a ∷ rest) env b c = c

flush-IsConsistent :
    (archive_error : Option Error) (env : Env) (b : Board)
    → IsConsistent b.st
    → IsConsistent (flush archive_error env b).0.st
unfolding flush save_now
flush-IsConsistent archive_error env b c =
    archive_then_save-IsConsistent archive_error (archive_batch b) env b c

-- Agents keep their names when they are marked offline.
offline-IsConsistent :
    (ttl : ℕ) (now : Time) (st : State)
    → IsConsistent st
    → IsConsistent (record st { agents = map_values (offline ttl now) st.agents })
unfolding offline
offline-IsConsistent ttl now st c = record {
  projects_distinct = c.projects_distinct;
  tasks_distinct = c.tasks_distinct;
  agents_distinct = map_values-Distinct (offline ttl now) st.agents c.agents_distinct;
  users_distinct = c.users_distinct;
  task_ok = c.task_ok;
  project_ok = c.project_ok;
  agent_ok = λ k a h.
      let (old, found, e) =
        map_option-eq_some (offline ttl now) (lookup k st.agents) a (rw lookup-map_values at h) in
      rw (← e) (c.agent_ok k old found);
  user_ok = c.user_ok;
  activity_rising = c.activity_rising;
}

stop_agents-IsConsistent :
    (ttl : ℕ) (actor : Str) (now : Time) (st : State)
    → IsConsistent st
    → IsConsistent (stop_agents ttl actor now st)
unfolding stop_agents
stop_agents-IsConsistent ttl actor now st c =
    log-IsConsistent now _ _ _ _ _
      (offline-IsConsistent ttl now _ (sweep_locked-IsConsistent now st c))

shutdown-IsConsistent :
    (actor : Str) (archive_error : Option Error) (env later : Env) (b : Board)
    → IsConsistent b.st
    → IsConsistent (shutdown actor archive_error env later b).0.st
unfolding shutdown
shutdown-IsConsistent actor archive_error env later b c =
    let stopped = record b { st = stop_agents b.agent_ttl actor env.now b.st } in
    flush-IsConsistent archive_error later
      (persist_and_publish_locked env (event EventType.shutdown []) stopped).0
      (rw (persist_and_publish_locked-st env)
        (stop_agents-IsConsistent b.agent_ttl actor env.now b.st c))

module _ (prf : Str → Bytes → Bytes)
    (sized : (key : Str) (msg : Bytes) → length (prf key msg) ≡ hash_size)
    (parse_address : Str → Option Str) where
  pub perform-IsConsistent :
      (env : Env) (call : Call) (b : Board)
      → HasSalt call
      → IsConsistent b.st
      → IsConsistent (perform prf parse_address env call b).st
  unfolding perform create_project add_task comment claim release complete heartbeat update tasks
      close
  perform-IsConsistent env (creates_project key name actor) b s c =
      checked-IsConsistent (check_project key name actor) (λ i. create_project_action key i.0 i.1)
        env b
        (λ i h.
          create_project_action-KeepsConsistent key i.0 i.1 (check_project-key key name actor i h))
        c
  perform-IsConsistent env (adds_task new) b s c =
      checked-IsConsistent (check_task new) (λ i. add_task_action new i) env b
        (λ i h. add_task_action-KeepsConsistent new i h) c
  perform-IsConsistent env (comments id actor text) b s c =
      checked-IsConsistent (check_comment actor text) (λ i. comment_action id i.0 i.1) env b
        (λ i h. comment_action-KeepsConsistent id i.0 i.1) c
  perform-IsConsistent env (claims id agent lease) b s c =
      checked-IsConsistent (check_claim agent lease b.lease) (λ l. claim_action id agent l) env b
        (λ l h.
          claim_action-KeepsConsistent id agent l
            (name_re-ne-nil agent (check_claim-agent agent lease b.lease l h)))
        c
  perform-IsConsistent env (releases id agent) b s c =
      do_locked-IsConsistent _ env b (release_action-KeepsConsistent id agent) c
  perform-IsConsistent env (completes id agent) b s c =
      checked-IsConsistent (check_agent agent) (λ _. complete_action id agent) env b
        (λ _ h. complete_action-KeepsConsistent id agent) c
  perform-IsConsistent env (updates id p) b s c =
      checked-IsConsistent (check_patch p) (λ i. update_action id p i) env b
        (λ i h. update_action-KeepsConsistent id p i h) c
  perform-IsConsistent env (beats name req) b s c =
      checked-IsConsistent (check_heartbeat name req) (λ _. heartbeat_action b.lease name req) env b
        (λ _ h. heartbeat_action-KeepsConsistent b.lease name req) c
  perform-IsConsistent env sweeps b s c =
      rw (sweep-st env b) (sweep_locked-IsConsistent env.now b.st c)
  perform-IsConsistent env (reads f) b s c = do_locked-IsConsistent _ env b (λ now st k. k) c
  perform-IsConsistent env (registers raw password salt) b s c =
      register-IsConsistent prf sized parse_address raw password salt env b s c
  perform-IsConsistent env (logs_in raw password salt) b s c =
      authenticate-IsConsistent prf sized raw password salt env b s c
  perform-IsConsistent env (flushes archive_error) b s c = flush-IsConsistent archive_error env b c
  perform-IsConsistent env (closes archive_error) b s c =
      flush-IsConsistent archive_error env (record b { closed = true }) c
  perform-IsConsistent env (shuts_down actor archive_error later) b s c =
      shutdown-IsConsistent actor archive_error env later b c

  -- Every sequence of calls leaves a consistent board consistent: the calls may fail, the clock may
  -- go either way, and the Store may refuse any save. The salts of new hashes are not empty, and
  -- HMAC-SHA256 has results of 32 bytes.
  pub run-IsConsistent :
      (calls : List (Env × Call)) (b : Board)
      → HaveSalts calls
      → IsConsistent b.st
      → IsConsistent (run prf parse_address calls b).st
  unfolding run
  run-IsConsistent [] b s c = c
  run-IsConsistent ((env, call) ∷ calls) b s c =
      run-IsConsistent calls (perform prf parse_address env call b) s.1
        (perform-IsConsistent env call b s.0 c)

-- A fresh board is consistent.
pub new_state-IsConsistent : IsConsistent new_state
unfolding new_state lookup
new_state-IsConsistent = record {
  projects_distinct = tt;
  tasks_distinct = tt;
  agents_distinct = tt;
  users_distinct = tt;
  task_ok = λ id t h. cc;
  project_ok = λ id t h. cc;
  agent_ok = λ id t h. cc;
  user_ok = λ id t h. cc;
  activity_rising = omega arith;
}
