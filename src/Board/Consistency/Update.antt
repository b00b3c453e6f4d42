-- ===== src/Board/Consistency/Update.antt =====
-- Update keeps a state consistent.
use agentboard.Prelude.{
  ◌≡◌, refl, inl, inr, false, not, Option, none, some, List, [], ◌∷◌, arith, Str, str_eq,
  str_eq_iff, Bool-cases, lookup, runes, ◌++◌,
}
use agentboard.Model.Status
use agentboard.Model.Status.{Status, todo, in_progress}
use agentboard.Model.Priority
use agentboard.Model.Priority.{Priority}
use agentboard.Model.Data.{Task, State, Time}
use agentboard.Board.Types.{ok, Patch}
use agentboard.Board.Leases.{put_task, task_locked}
use agentboard.Board.Update.{
  PatchInput, check_patch, edited, leave_current, check_new_parent, patchable, apply_patch,
  update_action, ends_before, final_date, target, log_move, log_edit, stamped, set_and,
}
use agentboard.Board.Edits.{patched, edited-patched, or_old}
use agentboard.Board.Consistency.Rules.{HasParent, IsTask, IsConsistent}
use agentboard.Board.Consistency.Parts.{
  SameIdentity, put_task-IsConsistent, log-IsConsistent, clear_current_locked-IsConsistent,
}
use agentboard.Board.Consistency.Tasks.{check_parent_locked-HasParent}
use agentboard.Board.Consistency.Keeps.{KeepsConsistent, on_ok-IsConsistent}

check_patch_lem :
    (p : Patch) (i : PatchInput)
    → check_patch p ≡ ok i
    → (set_and (λ s. not (Status.valid s)) p.status ≡ false)
      × (set_and (λ q. not (Priority.valid q)) p.priority ≡ false)
unfolding check_patch
check_patch_lem p i h = ground arith

-- The task that a patch was found to fit, and what was checked of it.
patchable_lem :
    (id : Str) (p : Patch) (i : PatchInput) (st : State) (t : Task)
    → patchable id p i st ≡ ok t
    → (lookup id st.tasks ≡ some t)
      × (check_new_parent p.parent t st ≡ ok tt)
      × (ends_before
            (final_date p.start_date i.start_date t.start_date)
            (final_date p.end_date i.end_date t.end_date)
          ≡ false)
unfolding patchable task_locked
patchable_lem id p i st t h = ground arith

check_new_parent-HasParent :
    (parent : Option Str) (t : Task) (st : State)
    → check_new_parent parent t st ≡ ok tt
    → HasParent st.tasks t
    → HasParent st.tasks (record t { parent = or_old parent t.parent })
unfolding check_new_parent
check_new_parent-HasParent none t st h v = v
check_new_parent-HasParent (some q) t st h v = elim (Bool-cases (str_eq q t.parent)) [
  | inl same ↦ let e = (str_eq_iff q t.parent).0 same in rw e v
  | inr new ↦ check_parent_locked-HasParent t.project t.kind q st (rw (new, check_new_parent) at h)
]

module _ (p : Patch) (i : PatchInput) (id : Str) (t : Task) (st : State) where
  patched-IsTask :
      check_patch p ≡ ok i
      → check_new_parent p.parent t st ≡ ok tt
      → ends_before
          (final_date p.start_date i.start_date t.start_date)
          (final_date p.end_date i.end_date t.end_date)
        ≡ false
      → IsTask st.projects st.tasks id t
      → IsTask st.projects st.tasks id (patched p i t)
  unfolding patched
  patched-IsTask checks new dates v =
      let valid = check_patch_lem p i checks in
      record {
        id_eq = v.id_eq;
        numbered = v.numbered;
        status_valid = v.status_valid;
        priority_valid = ground arith;
        kind_valid = v.kind_valid;
        dates_ordered = dates;
        parent = check_new_parent-HasParent p.parent t st new v.parent;
        lease_sound = v.lease_sound;
      }

  target-IsTask :
      (now : Time) (actor : Str) (to : Option Status)
      → set_and (λ s. not (Status.valid s)) to ≡ false
      → IsTask st.projects st.tasks id t
      → IsTask st.projects st.tasks id (stamped now actor (target to t))
  unfolding target
  target-IsTask now actor none valid v = ground arith
  target-IsTask now actor (some s) valid v = ground arith

patched-SameIdentity : (p : Patch) (i : PatchInput) (t : Task) → SameIdentity t (patched p i t)
unfolding patched
patched-SameIdentity p i t = record { id_kept = refl; project_kept = refl; kind_kept = refl }

target-SameIdentity :
    (to : Option Status) (now : Time) (actor : Str) (t u : Task)
    → SameIdentity t u
    → SameIdentity t (stamped now actor (target to u))
unfolding target
target-SameIdentity to now actor t u h = ground arith

leave_current-IsConsistent :
    (t : Task) (to : Status) (st : State) → IsConsistent st → IsConsistent (leave_current t to st)
unfolding leave_current
leave_current-IsConsistent t to st c =
    let kept = clear_current_locked-IsConsistent t.assignee t.id st c in ground arith

log_move-IsConsistent :
    (now : Time) (actor id : Str) (to : Option Status) (t : Task) (st : State)
    → IsConsistent st
    → IsConsistent (log_move now actor id to t st)
unfolding log_move
log_move-IsConsistent now actor id none t st c = c
log_move-IsConsistent now actor id (some s) t st c =
    let kept =
      log-IsConsistent now actor id (runes "status")
        (Status.text t.status ++ (runes " → " ++ Status.text s)) (leave_current t s st)
        (leave_current-IsConsistent t s st c) in
    ground arith

log_edit-IsConsistent :
    (now : Time) (actor id : Str) (changed : List Str) (st : State)
    → IsConsistent st
    → IsConsistent (log_edit now actor id changed st)
unfolding log_edit
log_edit-IsConsistent now actor id [] st c = c
log_edit-IsConsistent now actor id (x ∷ xs) st c = log-IsConsistent now actor id _ _ st c

applied :
    (id : Str) (p : Patch) (i : PatchInput) (t : Task) (now : Time) (st : State)
    → IsConsistent st
    → IsConsistent (
        log_move now i.actor id p.status (edited p i t).0 (
          log_edit now i.actor id
            (edited p i t).1
            (put_task id (stamped now i.actor (target p.status (edited p i t).0)) st)))
    → IsConsistent (apply_patch id p i t now st).0
unfolding apply_patch
applied id p i t now st c kept = ground arith

pub update_action-KeepsConsistent :
    (id : Str) (p : Patch) (i : PatchInput)
    → check_patch p ≡ ok i
    → KeepsConsistent (update_action id p i)
unfolding update_action
update_action-KeepsConsistent id p i checks now st c = on_ok-IsConsistent st _ _ c λ t h.
    let (found, new, dates) = patchable_lem id p i st t h in
    let v = patched-IsTask p i id t st checks new dates (c.task_ok id t found) in
    let e = edited-patched p i t in
    applied id p i t now st c (
      log_move-IsConsistent now i.actor id p.status _ _ (
        log_edit-IsConsistent now i.actor id _ _ (
          put_task-IsConsistent id t _ st found
            (target-SameIdentity p.status now i.actor t _ (rw e (patched-SameIdentity p i t)))
            (target-IsTask p i id (edited p i t).0 st now i.actor p.status
              (check_patch_lem p i checks).0 (rw e v))
            c)))
