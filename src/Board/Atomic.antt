-- ===== src/Board/Atomic.antt =====
-- The contract of do (board.go): a closure that reports no change has changed nothing, and one that
-- returns an error reports no change.
use agentboard.Prelude.{
  ℕ, ◌≡◌, refl, Option, none, some, Str, arith, Option-cases, inl, inr, lookup,
}
use agentboard.Model.Data.{Time, State, Task}
use agentboard.Board.Types.{Result, ok, err, Error, Event, NewTask, Patch, HeartbeatRequest}
use agentboard.Board.Do.{Action}
use agentboard.Board.Tasks.{
  TaskInput, on_ok, create_project_action, add_task_action, comment_action,
}
use agentboard.Board.Claims.{claim_action, release_action, complete_action, heartbeat_action}
use agentboard.Board.Update.{PatchInput, apply_patch, update_action}
use agentboard.Board.Accounts.{Credential, register_action, rehash_action}

-- Of one outcome of a closure that was run on a state.
pub record IsAtomicOutcome {ℓ} {A : Type ℓ} (st : State) (r : State × Option Event × Result A)
    : Type ℓ where
  pub quiet : r.1 ≡ none → r.0 ≡ st
  pub errors_quiet : (e : Error) → r.2 ≡ err e → r.1 ≡ none

abbrev pub IsAtomic {ℓ} : {A : Type ℓ} → Action A → Type ℓ
IsAtomic fn = (now : Time) (st : State) → IsAtomicOutcome st (fn now st)

on_ok-IsAtomicOutcome {ℓ κ} :
    {I : Type ℓ} {A : Type κ} (st : State) (r : Result I) (k : I → State × Option Event × Result A)
    → ((i : I) → IsAtomicOutcome st (k i))
    → IsAtomicOutcome st (on_ok st r k)
unfolding on_ok
on_ok-IsAtomicOutcome st (err e) k h = record { quiet = λ _. refl; errors_quiet = λ _ _. refl }
on_ok-IsAtomicOutcome st (ok i) k h = h i

-- An outcome with an event and a value.
changed-IsAtomicOutcome {ℓ} :
    {A : Type ℓ} (st st' : State) (ev : Event) (a : A) → IsAtomicOutcome st (st', some ev, ok a)
changed-IsAtomicOutcome st st' ev a = record { quiet = λ h. cc; errors_quiet = λ e h. cc }

apply_patch-IsAtomicOutcome :
    (id : Str) (p : Patch) (i : PatchInput) (t : Task) (now : Time) (st : State)
    → IsAtomicOutcome st (apply_patch id p i t now st)
unfolding apply_patch
apply_patch-IsAtomicOutcome id p i t now st = record {
  quiet = λ h. ground arith;
  errors_quiet = λ e h. ground arith;
}

rehash_action-IsAtomic : (email : Str) (cred : Credential) → IsAtomic (rehash_action email cred)
unfolding rehash_action
rehash_action-IsAtomic email cred now st = elim (Option-cases (lookup email st.users)) [
  | inl e ↦ rw (e, rehash_action) (record { quiet = λ _. refl; errors_quiet = λ _ _. refl })
  | inr (u, e) ↦ rw (e, rehash_action) (changed-IsAtomicOutcome st _ _ _)
]

-- Every closure that the board runs under its lock keeps the contract: no event means that the state
-- is the one it was given, and an error comes with no event.
pub actions-IsAtomic :
    (new : NewTask) (i : TaskInput) (p : Patch) (j : PatchInput) (req : HeartbeatRequest)
    (cred : Credential) (id name agent text : Str) (lease : ℕ)
    → IsAtomic (create_project_action id name agent)
      × IsAtomic (add_task_action new i)
      × IsAtomic (comment_action id agent text)
      × IsAtomic (claim_action id agent lease)
      × IsAtomic (release_action id agent)
      × IsAtomic (complete_action id agent)
      × IsAtomic (update_action id p j)
      × IsAtomic (heartbeat_action lease agent req)
      × IsAtomic (register_action id cred)
      × IsAtomic (rehash_action id cred)
unfolding create_project_action add_task_action comment_action claim_action release_action
    complete_action update_action heartbeat_action register_action
actions-IsAtomic new i p j req cred id name agent text lease = (
  λ now st. on_ok-IsAtomicOutcome st _ _ (λ _. changed-IsAtomicOutcome st _ _ _),
  λ now st. on_ok-IsAtomicOutcome st _ _ (λ _. changed-IsAtomicOutcome st _ _ _),
  λ now st. on_ok-IsAtomicOutcome st _ _ (λ _. changed-IsAtomicOutcome st _ _ _),
  λ now st. on_ok-IsAtomicOutcome st _ _ (λ _. changed-IsAtomicOutcome st _ _ _),
  λ now st. on_ok-IsAtomicOutcome st _ _ (λ _. changed-IsAtomicOutcome st _ _ _),
  λ now st. on_ok-IsAtomicOutcome st _ _ (λ _. changed-IsAtomicOutcome st _ _ _),
  λ now st. on_ok-IsAtomicOutcome st _ _ (λ t. apply_patch-IsAtomicOutcome id p j t now st),
  λ now st. on_ok-IsAtomicOutcome st _ _ (λ _. changed-IsAtomicOutcome st _ _ _),
  λ now st. on_ok-IsAtomicOutcome st _ _ (λ _. changed-IsAtomicOutcome st _ _ _),
  rehash_action-IsAtomic id cred,
)
