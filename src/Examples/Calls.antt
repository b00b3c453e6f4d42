-- ===== src/Examples/Calls.antt =====
-- Histories of calls, and a claim that excludes a second agent.
use agentboard.Prelude.{
  true, false, ap, none, some, [], ◌∷◌, runes, ◌≡◌, ◌≢◌, refl, lookup, insert, str_eq,
}
use agentboard.Prelude.Int.{pos}
use agentboard.Text.Decimal.{decimal}
use agentboard.Text.TaskId.{task_id}
use agentboard.Model.Status
use agentboard.Model.Status.{todo, in_progress}
use agentboard.Model.Priority.{medium, high}
use agentboard.Model.Kind
use agentboard.Model.Priority
use agentboard.Text.{trim_space, trim_left, is_space, key_re, byte_len, name_re}
use agentboard.Board.Inputs.{require_actor, normalize_labels}
use agentboard.Board.Do.{do_locked}
use agentboard.Board.Leases.{sweep_locked, expired_ids, release_all, put_task, log, task_locked}
use agentboard.Board.Tasks.{
  on_ok, create_project, add_task, check_project, create_project_action, add_task_action,
  check_placement, check_parent_locked, new_project, put_project,
}
use agentboard.Model.Data.{State, Task, Project, new_state}
use agentboard.Board.Types.{Board, claimed, ok}
use agentboard.Board.Calls.{run, perform}
use agentboard.Board.Claims.{claim, check_claim, claim_action, claimable, leased}
use agentboard.Board.Exclusion.{claim_excludes}
use agentboard.Board.Consistency.Rules.{IsConsistent}
use agentboard.Board.Consistency.Calls.{run-IsConsistent, new_state-IsConsistent}
use agentboard.Text.{cut}
use agentboard.Text.TaskId.{split_id}
use agentboard.Text.Decimal.{atoi}
use agentboard.Store.Validate.{
  validate_state, check_task, check_tasks, check_parent, check_parents, check_projects,
  check_agents, check_users, check_activity, seq_of, raised,
}
use agentboard.Store.Accepts.{run-validate_state}
use agentboard.Examples.Data.{at, fresh_board, toy_prf, toy_prf-sized, any_address, setup, history}

run-IsConsistent_example : IsConsistent (run toy_prf any_address history fresh_board).st
run-IsConsistent_example =
    run-IsConsistent toy_prf toy_prf-sized any_address history fresh_board
      (tt, (tt, (tt, (tt, tt)))) new_state-IsConsistent

abbrev board : Board
board = run toy_prf any_address setup fresh_board

board-IsConsistent : IsConsistent board.st
board-IsConsistent =
    run-IsConsistent toy_prf toy_prf-sized any_address setup fresh_board (tt, (tt, tt))
      new_state-IsConsistent

abbrev claimed_task : Task
claimed_task = record {
  id = runes "AB-1";
  project = runes "AB";
  kind = Kind.task;
  parent = [];
  title = runes "Write";
  description = [];
  status = in_progress;
  priority = high;
  labels = [];
  assignee = runes "bob";
  lease_expires = some 600_000_000_030;
  lease_seconds = 600;
  created_by = runes "ann";
  updated_by = runes "bob";
  created_at = 20;
  updated_at = 30;
  start_date = none;
  end_date = none;
}

abbrev written_task : Task
written_task = record claimed_task {
  status = todo;
  assignee = [];
  lease_expires = none;
  lease_seconds = 0;
  updated_by = runes "ann";
  updated_at = 20;
}

abbrev project_ab : Project
project_ab = record { key = runes "AB"; name = runes "Alpha"; next_seq = 1; created_at = 10 }

tasks_value : board.st.tasks ≡ (runes "AB-1", written_task) ∷ []
unfolding run perform create_project add_task check_project trim_space trim_left is_space key_re
    byte_len require_actor name_re agentboard.Board.Tasks.check_task Priority.valid Kind.valid
    normalize_labels do_locked on_ok sweep_locked expired_ids release_all create_project_action
    add_task_action check_placement check_parent_locked new_project put_project put_task insert
    lookup str_eq log new_state task_id decimal
tasks_value = refl

claimed_value :
    (claim (runes "AB-1") (runes "bob") (pos 0) (at 30) board).1.value ≡ some claimed_task
unfolding run perform create_project add_task check_project trim_space trim_left is_space key_re
    byte_len require_actor name_re agentboard.Board.Tasks.check_task Priority.valid Kind.valid
    normalize_labels do_locked on_ok sweep_locked expired_ids release_all create_project_action
    add_task_action check_placement check_parent_locked new_project put_project put_task insert
    lookup str_eq log new_state task_id decimal claim check_claim claim_action claimable task_locked
    leased Status.eq
claimed_value = refl

valid_for_eve :
    check_claim
      (runes "eve")
      (pos 0)
      (claim (runes "AB-1") (runes "bob") (pos 0) (at 30) board).0.lease
    ≡ ok 600_000_000_000
unfolding run perform create_project add_task check_project trim_space trim_left is_space key_re
    byte_len require_actor name_re agentboard.Board.Tasks.check_task Priority.valid Kind.valid
    normalize_labels do_locked on_ok sweep_locked expired_ids release_all create_project_action
    add_task_action check_placement check_parent_locked new_project put_project put_task insert
    lookup str_eq log new_state task_id decimal claim check_claim claim_action claimable task_locked
    leased Status.eq
valid_for_eve = refl

true_ne_false : true ≢ false
true_ne_false e = cc

bob-ne-eve : runes "bob" ≢ runes "eve"
unfolding str_eq
bob-ne-eve e = true_ne_false (ap (str_eq (runes "bob")) e)

claim_excludes_example :
    let b' = (claim (runes "AB-1") (runes "bob") (pos 0) (at 30) board).0 in
    ((claim (runes "AB-1") (runes "eve") (pos 0) (at 50) b').1.error ≡ some claimed)
    × (lookup (runes "AB-1") (claim (runes "AB-1") (runes "eve") (pos 0) (at 50) b').0.st.tasks
        ≡ some claimed_task)
claim_excludes_example =
    claim_excludes (runes "AB-1") (runes "bob") (runes "eve") (pos 0) (pos 0) (at 30) (at 50) board
      claimed_task 600_000_000_000 board-IsConsistent claimed_value bob-ne-eve valid_for_eve refl

run-validate_state_example : validate_state (run toy_prf any_address history fresh_board).st ≡ ok tt
run-validate_state_example =
    run-validate_state toy_prf toy_prf-sized any_address history fresh_board
      (tt, (tt, (tt, (tt, tt)))) new_state-IsConsistent

-- A task of one project under an id that another project will give: ValidateState accepts it.
abbrev stray : State
stray = record new_state {
  projects =
      (runes "AB", record project_ab { next_seq = 0 })
      ∷ (runes "CD", record project_ab { key = runes "CD" })
      ∷ [];
  tasks = (runes "AB-1", record written_task { project = runes "CD" }) ∷ [];
}

stray_accepted : validate_state stray ≡ ok tt
unfolding validate_state check_task check_tasks check_parent check_parents check_projects
    check_agents check_users check_activity seq_of raised str_eq lookup insert Status.valid
    Priority.valid Kind.valid split_id cut atoi new_state
stray_accepted = refl
