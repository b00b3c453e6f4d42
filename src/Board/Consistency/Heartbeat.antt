-- ===== src/Board/Consistency/Heartbeat.antt =====
-- Heartbeat keeps a state consistent.
use agentboard.Prelude.{
  ℕ, ◌≡◌, refl, inl, inr, Option, none, some, arith, Str, Table, lookup, map_values,
  lookup-map_values, map_values-Distinct, map_option,
}
use agentboard.Model.Data.{Project, Task, State, Time}
use agentboard.Board.Types.{HeartbeatRequest}
use agentboard.Board.Claims.{renewed, renew_leases, beaten, heartbeat_action}
use agentboard.Board.Consistency.Rules.{HasParent, IsTask, IsConsistent}
use agentboard.Board.Consistency.Parts.{SameIdentity, put_agent-IsConsistent, touched-name}
use agentboard.Board.Consistency.Keeps.{KeepsConsistent, on_ok-IsConsistent}

renewed-SameIdentity :
    (default : ℕ) (name : Str) (now : Time) (t : Task) → SameIdentity t (renewed default name now t)
unfolding renewed
renewed-SameIdentity default name now t = ground arith

renewed-parent :
    (default : ℕ) (name : Str) (now : Time) (t : Task)
    → (renewed default name now t).parent ≡ t.parent
unfolding renewed
renewed-parent default name now t = ground arith

module _ (default : ℕ) (name : Str) (now : Time) (tasks : Table Task) where
  HasParent-renewed :
      (t : Task)
      → HasParent tasks t
      → HasParent (map_values (renewed default name now) tasks) (renewed default name now t)
  HasParent-renewed t (inl e) = inl (rw (renewed-parent default name now t) e)
  HasParent-renewed t (inr (pt, l, p, k)) =
      let same = renewed-SameIdentity default name now t in
      let same_parent = renewed-SameIdentity default name now pt in
      inr (
        renewed default name now pt,
        rw (renewed-parent default name now t, lookup-map_values, l),
        rw (same.project_kept, same_parent.project_kept) p,
        rw (same.kind_kept, same_parent.kind_kept) k,
      )

  IsTask-renewed :
      (projects : Table Project) (id : Str) (t : Task)
      → IsTask projects tasks id t
      → IsTask projects
          (map_values (renewed default name now) tasks)
          id
          (renewed default name now t)
  unfolding renewed
  IsTask-renewed projects id t v =
      let parent = HasParent-renewed t v.parent in ground (arith, parent)

pub map_option-eq_some {ℓ} :
    {V : Type ℓ} (f : V → V) (o : Option V) (u : V)
    → map_option f o ≡ some u
    → (t : V) × (o ≡ some t) × (f t ≡ u)
map_option-eq_some f none u h = cc
map_option-eq_some f (some t) u h = (t, refl, cc)

renew_leases-IsConsistent :
    (default : ℕ) (name : Str) (now : Time) (st : State)
    → IsConsistent st
    → IsConsistent (renew_leases default name now st)
unfolding renew_leases
renew_leases-IsConsistent default name now st c = record {
  projects_distinct = c.projects_distinct;
  tasks_distinct = map_values-Distinct _ st.tasks c.tasks_distinct;
  agents_distinct = c.agents_distinct;
  users_distinct = c.users_distinct;
  task_ok = λ k u h.
      let (t, found, e) =
        map_option-eq_some (renewed default name now) (lookup k st.tasks) u
          (rw lookup-map_values at h) in
      rw (← e) (IsTask-renewed default name now st.tasks st.projects k t (c.task_ok k t found));
  project_ok = c.project_ok;
  agent_ok = c.agent_ok;
  user_ok = c.user_ok;
  activity_rising = c.activity_rising;
}

beaten-name :
    (name : Str) (req : HeartbeatRequest) (now : Time) (st : State)
    → IsConsistent st
    → (beaten name req now st).name ≡ name
unfolding beaten
beaten-name name req now st c =
    let same = touched-name name req.kind req.task now (lookup name st.agents) (c.agent_ok name) in
    ground (arith, same)

pub heartbeat_action-KeepsConsistent :
    (default : ℕ) (name : Str) (req : HeartbeatRequest)
    → KeepsConsistent (heartbeat_action default name req)
unfolding heartbeat_action
heartbeat_action-KeepsConsistent default name req now st c = on_ok-IsConsistent st _ _ c λ _ h.
    renew_leases-IsConsistent default name now _
      (put_agent-IsConsistent name (beaten name req now st) st (beaten-name name req now st c) c)
