-- ===== src/Examples/Saves.antt =====
-- Sweeps, the contract of do, and saves at concrete inputs.
use agentboard.Prelude.{
  true, false, Option, none, some, [], ◌∷◌, runes, ◌≡◌, refl, subst, inr, lookup, str_eq,
  map_option, Distinct,
}
use agentboard.Model.Priority.{high}
use agentboard.Model.Kind
use agentboard.Model.Status
use agentboard.Model.Status.{todo, in_progress}
use agentboard.Model.Data.{State, Task, Time, Project, new_state}
use agentboard.Board.Types.{Board, Event, EventType, HeartbeatRequest, Result, ok}
use agentboard.Prelude.Int.{pos}
use agentboard.Board.Leases.{sweep_locked, has_expired, expired_ids, release_all, task_locked}
use agentboard.Board.Do.{do_locked, event, persist_and_publish_locked, publish_locked}
use agentboard.Board.Tasks.{
  TaskInput, on_ok, create_project_action, add_task_action, comment_action,
}
use agentboard.Board.Claims.{claim_action, release_action, complete_action, heartbeat_action}
use agentboard.Board.Update.{PatchInput, update_action}
use agentboard.Board.Accounts.{Credential, register_action, rehash_action}
use agentboard.Board.Saving.{begin_save, end_save, save_dirty}
use agentboard.Board.Sweep.{after_sweep, sweep_locked-lookup}
use agentboard.Board.Atomic.{IsAtomic, actions-IsAtomic}
use agentboard.Board.WriteBehind.{
  SaveSteps, IsTracked, here, next, acts, begins, ends, clean_is_saved, save_dirty-saved,
  closed_save_overwrites,
}
use agentboard.Text.{trim_space, trim_left, is_space, to_lower}
use agentboard.Board.Open.{Options, open_board, save_mode_of, clean_domains}
use agentboard.Board.Opened.{opened_clean_is_saved}
use agentboard.Examples.Data.{at, fresh_board, new_task, patch}

abbrev held_task : Task
held_task = record {
  id = runes "AB-1";
  project = runes "AB";
  kind = Kind.task;
  parent = [];
  title = runes "Write";
  description = [];
  status = in_progress;
  priority = high;
  labels = [];
  assignee = runes "bob";
  lease_expires = some 100;
  lease_seconds = 600;
  created_by = runes "ann";
  updated_by = runes "bob";
  created_at = 20;
  updated_at = 30;
  start_date = none;
  end_date = none;
}

abbrev held : State
held = record new_state { tasks = (runes "AB-1", held_task) ∷ [] }

held-Distinct : Distinct held.tasks
unfolding lookup
held-Distinct = (refl, tt)

sweep_locked-lookup_example :
    lookup (runes "AB-1") (sweep_locked 200 held).0.tasks
    ≡ map_option (after_sweep 200) (lookup (runes "AB-1") held.tasks)
sweep_locked-lookup_example = sweep_locked-lookup 200 held (runes "AB-1") held-Distinct

-- The lease of the example's task still runs at 50.
kept_at_50 : lookup (runes "AB-1") (sweep_locked 50 held).0.tasks ≡ some held_task
unfolding sweep_locked expired_ids has_expired Status.eq release_all lookup str_eq
kept_at_50 = refl

abbrev task_input : TaskInput
task_input = record {
  title = runes "Write";
  priority = high;
  kind = Kind.task;
  labels = [];
  actor = runes "ann";
}

abbrev patch_input : PatchInput
patch_input = record { actor = runes "ann"; labels = none; start_date = none; end_date = none }

abbrev beat : HeartbeatRequest
beat = record { kind = runes "coder"; task = runes "AB-1"; meta = none }

abbrev cred : Credential
cred = record { hash = 1 ∷ []; salt = 2 ∷ []; iterations = 600_000 }

actions-IsAtomic_example :
    IsAtomic (create_project_action (runes "AB-1") (runes "Alpha") (runes "bob"))
    × IsAtomic (add_task_action new_task task_input)
    × IsAtomic (comment_action (runes "AB-1") (runes "bob") (runes "hi"))
    × IsAtomic (claim_action (runes "AB-1") (runes "bob") 600)
    × IsAtomic (release_action (runes "AB-1") (runes "bob"))
    × IsAtomic (complete_action (runes "AB-1") (runes "bob"))
    × IsAtomic (update_action (runes "AB-1") patch patch_input)
    × IsAtomic (heartbeat_action 600 (runes "bob") beat)
    × IsAtomic (register_action (runes "AB-1") cred)
    × IsAtomic (rehash_action (runes "AB-1") cred)
actions-IsAtomic_example =
    actions-IsAtomic new_task task_input patch patch_input beat cred (runes "AB-1") (runes "Alpha")
      (runes "bob") (runes "hi") 600

fresh-IsTracked : IsTracked (fresh_board, none)
fresh-IsTracked = record { background = refl; open_yet = refl; tracked = inr refl }

abbrev creates : Time → State → State × Option Event × Result Project
creates = create_project_action (runes "AB") (runes "Alpha") (runes "ann")

creates-IsAtomic : IsAtomic creates
creates-IsAtomic =
    (actions-IsAtomic new_task task_input patch patch_input beat cred (runes "AB") (runes "Alpha")
      (runes "ann") [] 0).0

-- A project is created: unsaved.
abbrev changed : Board
changed = (do_locked creates (at 10) fresh_board).0

changed_steps : SaveSteps (fresh_board, none) (changed, none)
changed_steps = next here (acts creates creates-IsAtomic (at 10) fresh_board none)

save_dirty-saved_example :
    ((save_dirty (at 30) changed).0.store ≡ changed.st)
    × ((save_dirty (at 30) changed).0.dirty ≡ false)
save_dirty-saved_example = save_dirty-saved changed (at 30) fresh-IsTracked changed_steps refl

-- The same board once a save has run to its end.
abbrev saved : Board
saved = end_save (at 30) changed.st (begin_save changed).0

changed-begins : begin_save changed ≡ ((begin_save changed).0, some changed.st)
unfolding begin_save do_locked persist_and_publish_locked on_ok create_project_action sweep_locked
    expired_ids release_all lookup new_state
changed-begins = refl

saving_steps : SaveSteps (fresh_board, none) ((begin_save changed).0, some changed.st)
saving_steps =
    subst (SaveSteps (fresh_board, none)) changed-begins (next changed_steps (begins changed))

saved_steps : SaveSteps (fresh_board, none) (saved, none)
saved_steps = next saving_steps (ends (at 30) changed.st (begin_save changed).0)

saved_clean : saved.dirty ≡ false
unfolding end_save begin_save do_locked persist_and_publish_locked on_ok create_project_action
    sweep_locked expired_ids release_all lookup new_state publish_locked
saved_clean = refl

clean_is_saved_example : saved.store ≡ saved.st
clean_is_saved_example = clean_is_saved saved fresh-IsTracked saved_steps saved_clean

-- A closed board with an unsaved change, as a flush that is under way finds it.
abbrev closing : Board
closing = record fresh_board { closed = true; dirty = true }

changes_closing : (creates 10 (sweep_locked 10 closing.st).0).1 ≡ some (event EventType.project [])
unfolding on_ok create_project_action sweep_locked expired_ids release_all lookup new_state
changes_closing = refl

closed_save_overwrites_example :
    let acted = (do_locked creates (at 10) (begin_save closing).0).0 in
    let b' = end_save (at 30) new_state acted in
    (acted.store ≡ acted.st)
    × (acted.dirty ≡ false)
    × (b'.store ≡ new_state)
    × (b'.st ≡ (creates 10 (sweep_locked 10 new_state).0).0)
    × (b'.dirty ≡ false)
closed_save_overwrites_example =
    closed_save_overwrites creates (at 10) (at 30) closing (event EventType.project []) refl refl
      refl refl changes_closing

abbrev options : Options
options = record {
  agent_ttl = pos 0;
  lease = pos 0;
  save_mode = [];
  archive_dir = [];
  max_activity = pos 0;
  allowed_email_domains = runes " Corp.io " ∷ [] ∷ [];
}

-- What Open makes of the defaults.
abbrev opened : Board
opened = record fresh_board { allowed_email_domains = runes "corp.io" ∷ []; max_activity = 5000 }

opened_by_open : open_board options (ok new_state) ≡ ok opened
unfolding open_board save_mode_of clean_domains trim_space trim_left is_space to_lower new_state
opened_by_open = refl

-- A comment on a task that is not there.
abbrev comments_nowhere : Time → State → State × Option Event × Result (Unit {0})
comments_nowhere = comment_action (runes "AB-1") (runes "bob") (runes "hi")

comments_nowhere-IsAtomic : IsAtomic comments_nowhere
comments_nowhere-IsAtomic =
    (actions-IsAtomic new_task task_input patch patch_input beat cred (runes "AB-1") []
      (runes "bob") (runes "hi") 0).2

nothing_dirty : (do_locked comments_nowhere (at 10) opened).0.dirty ≡ false
unfolding do_locked on_ok comment_action sweep_locked expired_ids release_all lookup new_state
    task_locked
nothing_dirty = refl

opened_clean_is_saved_example :
    (do_locked comments_nowhere (at 10) opened).0.store
    ≡ (do_locked comments_nowhere (at 10) opened).0.st
opened_clean_is_saved_example =
    opened_clean_is_saved options (ok new_state) opened
      (do_locked comments_nowhere (at 10) opened).0 opened_by_open refl
      (next here (acts comments_nowhere comments_nowhere-IsAtomic (at 10) opened none))
      nothing_dirty
