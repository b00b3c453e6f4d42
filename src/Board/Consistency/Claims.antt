-- ===== src/Board/Consistency/Claims.antt =====
-- Claim, Release, Complete and Heartbeat keep a state consistent.
use agentboard.Prelude.{ℕ, ◌≡◌, refl, ◌≢◌, true, some, [], ◌∷◌, arith, Str, lookup}
use agentboard.Text.{name_re}
use agentboard.Model.Status
use agentboard.Model.Status.{todo, in_progress, done}
use agentboard.Model.Data.{Task, State}
use agentboard.Board.Types.{ok}
use agentboard.Board.Leases.{put_task}
use agentboard.Board.Claims.{
  leased, claim_action, queued, release_action, finished, complete_action, claimable, releasable,
  completable,
}
use agentboard.Board.Consistency.Keeps.{KeepsConsistent, on_ok-IsConsistent}
use agentboard.Board.Consistency.Rules.{IsTask, IsConsistent}
use agentboard.Board.Consistency.Parts.{
  SameIdentity, put_task-IsConsistent, log-IsConsistent, clear_current_locked-IsConsistent,
  touch_agent_locked-IsConsistent,
}

pub name_re-ne-nil : (s : Str) → name_re s ≡ true → s ≢ []
unfolding name_re
name_re-ne-nil [] h = cc
name_re-ne-nil (c ∷ s) h = λ e. cc

module _ (id : Str) (t : Task) (st : State) (c : IsConsistent st)
    (found : lookup id st.tasks ≡ some t) where
  -- Each task that the operations write keeps its identity and satisfies the rules.
  put_rewritten :
      (t' : Task)
      → SameIdentity t t'
      → (IsTask st.projects st.tasks id t → IsTask st.projects st.tasks id t')
      → IsConsistent (put_task id t' st)
  put_rewritten t' same v = put_task-IsConsistent id t t' st found same (v (c.task_ok id t found)) c

  put_leased :
      (agent : Str) (lease now : ℕ)
      → agent ≢ []
      → IsConsistent (put_task id (leased agent lease now t) st)
  unfolding leased Status.valid
  put_leased agent lease now n =
      put_rewritten _ (record { id_kept = refl; project_kept = refl; kind_kept = refl })
        (λ v. ground arith)

  put_queued : (agent : Str) (now : ℕ) → IsConsistent (put_task id (queued agent now t) st)
  unfolding queued Status.valid
  put_queued agent now =
      put_rewritten _ (record { id_kept = refl; project_kept = refl; kind_kept = refl })
        (λ v. ground arith)

  put_finished : (agent : Str) (now : ℕ) → IsConsistent (put_task id (finished agent now t) st)
  unfolding finished Status.valid
  put_finished agent now =
      put_rewritten _ (record { id_kept = refl; project_kept = refl; kind_kept = refl })
        (λ v. ground arith)

claimable-lookup :
    (id agent : Str) (st : State) (t : Task)
    → claimable id agent st ≡ ok t
    → lookup id st.tasks ≡ some t
unfolding claimable
claimable-lookup id agent st t h = ground arith

releasable-lookup :
    (id agent : Str) (st : State) (t : Task)
    → releasable id agent st ≡ ok t
    → lookup id st.tasks ≡ some t
unfolding releasable
releasable-lookup id agent st t h = ground arith

completable-lookup :
    (id agent : Str) (st : State) (t : Task)
    → completable id agent st ≡ ok t
    → lookup id st.tasks ≡ some t
unfolding completable
completable-lookup id agent st t h = ground arith

pub claim_action-KeepsConsistent :
    (id agent : Str) (lease : ℕ) → agent ≢ [] → KeepsConsistent (claim_action id agent lease)
unfolding claim_action
claim_action-KeepsConsistent id agent lease n now st c = on_ok-IsConsistent st _ _ c λ t h.
    log-IsConsistent now agent id _ _ _ (
      touch_agent_locked-IsConsistent agent [] id now _
        (put_leased id t st c (claimable-lookup id agent st t h) agent lease now n))

pub release_action-KeepsConsistent : (id agent : Str) → KeepsConsistent (release_action id agent)
unfolding release_action
release_action-KeepsConsistent id agent now st c = on_ok-IsConsistent st _ _ c λ t h.
    log-IsConsistent now agent id _ _ _ (
      clear_current_locked-IsConsistent agent id _
        (put_queued id t st c (releasable-lookup id agent st t h) agent now))

pub complete_action-KeepsConsistent : (id agent : Str) → KeepsConsistent (complete_action id agent)
unfolding complete_action
complete_action-KeepsConsistent id agent now st c = on_ok-IsConsistent st _ _ c λ t h.
    log-IsConsistent now agent id _ _ _ (
      clear_current_locked-IsConsistent _ id _
        (put_finished id t st c (completable-lookup id agent st t h) agent now))
