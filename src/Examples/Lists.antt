-- ===== src/Examples/Lists.antt =====
-- What Tasks lists of a board with the tasks AB-2 and AB-10.
use agentboard.Prelude.{◌≡◌, ◌↔◌, refl, none, some, [], ◌∷◌, runes, lookup, Member, str_eq, str_lt}
use agentboard.Text.{cut}
use agentboard.Text.Decimal.{atoi}
use agentboard.Text.TaskId.{id_less}
use agentboard.Model.Status
use agentboard.Model.Kind
use agentboard.Model.Status.{todo}
use agentboard.Model.Data.{Task}
use agentboard.Board.Types.{Filter}
use agentboard.Board.Queries.{matches, tasks_locked}
use agentboard.Board.Listing.{IsWanted, InOrder, tasks_locked_lem}
use agentboard.Examples.Views.{state, state-IsConsistent, epic, story}

abbrev todo_filter : Filter
todo_filter = record {
  project = runes "AB";
  status = some todo;
  assignee = [];
  kind = none;
  parent = [];
}

tasks_locked_lem_example :
    ((t : Task)
      → Member t (tasks_locked todo_filter state)
        ↔ ((lookup t.id state.tasks ≡ some t) × IsWanted todo_filter t))
    × InOrder (tasks_locked todo_filter state)
tasks_locked_lem_example = tasks_locked_lem todo_filter state state-IsConsistent

-- As numbers, 2 comes before 10.
both_listed : tasks_locked todo_filter state ≡ (epic ∷ story ∷ [])
unfolding tasks_locked matches id_less cut atoi str_eq str_lt Status.eq Kind.eq
both_listed = refl
