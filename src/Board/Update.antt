-- ===== src/Board/Update.antt =====
-- board.go: Update and moveLocked. A field of the patch that is `none` is left alone.
use agentboard.Prelude.{
  Bool, true, false, not, ◌&&◌, Option, none, some, List, [], ◌∷◌, ◌++◌, ltb, if◌then◌else◌,
  is_empty, Str, runes, str_eq,
}
use agentboard.Text.{byte_len, trim_space}
use agentboard.Model.Status
use agentboard.Model.Status.{Status, todo, in_progress}
use agentboard.Model.Priority
use agentboard.Model.Priority.{Priority}
use agentboard.Model.Date
use agentboard.Model.Date.{Date}
use agentboard.Model.Data.{Time, Task, State}
use agentboard.Board.Types.{
  Result, ok, err, ◌>>=◌, ◌>>◌, refuse_if, invalid, Reply, EventType, Board, Env, Patch,
}
use agentboard.Board.Inputs.{max_title, max_description, require_actor, normalize_labels}
use agentboard.Board.Leases.{log, put_task, clear_current_locked, task_locked}
use agentboard.Board.Do.{event, Action}
use agentboard.Board.Tasks.{bad_length, on_ok, checked, check_parent_locked}

-- `f != nil && test(*f)`
abbrev pub set_and {ℓ} : {A : Type ℓ} → (A → Bool) → Option A → Bool
set_and test none = false
set_and test (some a) = test a

-- What Update computes from the patch before it takes the lock.
pub record PatchInput : Type 0 where
  pub actor : Str
  pub labels : Option (List Str)
  pub start_date : Option Date
  pub end_date : Option Date

abbrev check_labels : Option (List Str) → Result (Option (List Str))
check_labels none = ok none
check_labels (some ls) = elim (normalize_labels ls) [ err e ↦ err e | ok out ↦ ok (some out) ]

-- The empty text clears the date; any other text has to parse.
unfoldable pub check_date : Option Str → Result (Option Date)
check_date none = ok none
check_date (some s) =
    if is_empty s
    then ok none
    else elim (Date.parse_date s) [ none ↦ err invalid | some d ↦ ok (some d) ]

unfoldable pub check_patch : Patch → Result PatchInput
unfolding check_date
check_patch p = do
  actor ← require_actor p.actor
  refuse_if (set_and (λ v. bad_length max_title (trim_space v)) p.title) invalid
  refuse_if (set_and (λ v. ltb max_description (byte_len v)) p.description) invalid
  refuse_if (set_and (λ s. not (Status.valid s)) p.status) invalid
  refuse_if (set_and (λ q. not (Priority.valid q)) p.priority) invalid
  labels ← check_labels p.labels
  start_date ← check_date p.start_date
  end_date ← check_date p.end_date
  ok (record { actor = actor; labels = labels; start_date = start_date; end_date = end_date })

-- Both dates are set, and the end is before the start.
abbrev pub ends_before : Option Date → Option Date → Bool
ends_before (some s) (some e) = Date.before e s
ends_before _ _ = false

abbrev pub date_ptr_equal : Option Date → Option Date → Bool
date_ptr_equal none none = true
date_ptr_equal none (some b) = false
date_ptr_equal (some a) none = false
date_ptr_equal (some a) (some b) = Date.equal a b

-- A date after the patch: the parsed one where the patch names the field.
abbrev pub final_date : Option Str → Option Date → Option Date → Option Date
final_date none parsed old = old
final_date (some s) parsed old = parsed

-- The task under change, and the names of the fields that changed so far.
abbrev pub Changes : Type 0
Changes = Task × List Str

unfoldable pub with_title : Option Str → Changes → Changes
with_title none c = c
with_title (some v) (t, changed) =
    if not (str_eq (trim_space v) t.title)
    then (record t { title = trim_space v }, changed ++ runes "title" ∷ [])
    else (t, changed)

unfoldable pub with_description : Option Str → Changes → Changes
with_description none c = c
with_description (some v) (t, changed) =
    if not (str_eq v t.description)
    then (record t { description = v }, changed ++ runes "description" ∷ [])
    else (t, changed)

unfoldable pub with_priority : Option Priority → Changes → Changes
with_priority none c = c
with_priority (some q) (t, changed) =
    if not (Priority.eq q t.priority)
    then (record t { priority = q }, changed ++ runes "priority" ∷ [])
    else (t, changed)

unfoldable pub with_labels : Option (List Str) → Changes → Changes
with_labels none c = c
with_labels (some ls) (t, changed) = (record t { labels = ls }, changed ++ runes "labels" ∷ [])

unfoldable pub with_parent : Option Str → Changes → Changes
with_parent none c = c
with_parent (some v) (t, changed) =
    if not (str_eq v t.parent)
    then (record t { parent = v }, changed ++ runes "parent" ∷ [])
    else (t, changed)

unfoldable pub with_start : Option Str → Option Date → Changes → Changes
with_start none d c = c
with_start (some _) d (t, changed) =
    if not (date_ptr_equal t.start_date d)
    then (record t { start_date = d }, changed ++ runes "start_date" ∷ [])
    else (t, changed)

unfoldable pub with_end : Option Str → Option Date → Changes → Changes
with_end none d c = c
with_end (some _) d (t, changed) =
    if not (date_ptr_equal t.end_date d)
    then (record t { end_date = d }, changed ++ runes "end_date" ∷ [])
    else (t, changed)

-- The assignments of Update to every field but the status, in their order.
unfoldable pub edited : Patch → PatchInput → Task → Changes
edited p i t = with_end p.end_date (final_date p.end_date i.end_date t.end_date) (
    with_start p.start_date (final_date p.start_date i.start_date t.start_date) (
      with_parent p.parent (
        with_labels i.labels (
          with_priority p.priority (with_description p.description (with_title p.title (t, [])))))))

-- `strings.Join(changed, ", ")`
joined : List Str → Str
joined [] = []
joined (s ∷ []) = s
joined (s ∷ u ∷ rest) = s ++ (runes ", " ++ joined (u ∷ rest))

-- The task after moveLocked.
unfoldable pub moved : Status → Task → Task
moved to t = record t {
  status = to;
  lease_expires = none;
  lease_seconds = 0;
  assignee = (if Status.eq to todo then [] else t.assignee);
}

-- The agent's current task, which moveLocked clears when the task leaves in_progress.
unfoldable pub leave_current : Task → Status → State → State
unfolding clear_current_locked
leave_current t to st =
    if Status.eq t.status in_progress && not (Status.eq to in_progress)
    then clear_current_locked t.assignee t.id st
    else st

-- `*p.Status != t.Status`
abbrev pub moves : Option Status → Task → Bool
moves to t = set_and (λ s. not (Status.eq s t.status)) to

unfoldable pub target : Option Status → Task → Task
unfolding moved
target none t = t
target (some s) t = if Status.eq s t.status then t else moved s t

-- The log entries and the cleared current task of a move.
unfoldable pub log_move : Time → Str → Str → Option Status → Task → State → State
log_move now actor id none t st = st
log_move now actor id (some s) t st =
    if Status.eq s t.status
    then st
    else log now actor id (runes "status") (Status.text t.status ++ (runes " → " ++ Status.text s))
        (leave_current t s st)

unfoldable pub log_edit : Time → Str → Str → List Str → State → State
unfolding joined
log_edit now actor id [] st = st
log_edit now actor id (c ∷ cs) st = log now actor id (runes "updated") (joined (c ∷ cs)) st

unfoldable pub check_new_parent : Option Str → Task → State → Result (Unit {0})
check_new_parent none t st = ok tt
check_new_parent (some v) t st =
    if not (str_eq v t.parent) then check_parent_locked t.project t.kind v st else ok tt

abbrev pub stamped : Time → Str → Task → Task
stamped now actor t = record t { updated_at = now; updated_by = actor }

-- Update on a task that passed the checks: the fields, then the status.
unfoldable pub apply_patch : Str → Patch → PatchInput → Task → Action Task
apply_patch id p i t now st =
    let (t1, changed) = edited p i t in
    let t2 = stamped now i.actor (target p.status t1) in
    if is_empty changed && not (moves p.status t1) then (st, none, ok t1) else (
      log_move now i.actor id p.status t1 (log_edit now i.actor id changed (put_task id t2 st)),
      some (event EventType.task id),
      ok t2,
    )

-- The task, if the patch fits it: its new parent, and the order of its dates.
unfoldable pub patchable : Str → Patch → PatchInput → State → Result Task
unfolding task_locked check_new_parent
patchable id p i st = do
  t ← task_locked id st
  check_new_parent p.parent t st
  let start = final_date p.start_date i.start_date t.start_date
  let end = final_date p.end_date i.end_date t.end_date
  refuse_if (ends_before start end) invalid
  ok t

unfoldable pub update_action : Str → Patch → PatchInput → Action Task
unfolding apply_patch
update_action id p i now st = on_ok st (patchable id p i st) λ t. apply_patch id p i t now st

unfoldable pub update : Str → Patch → Env → Board → Board × Reply Task
unfolding check_patch update_action
update id p = checked (check_patch p) (λ i. update_action id p i)
