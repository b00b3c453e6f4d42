-- ===== src/View/Columns/Order.antt =====
-- internal/view/view.go: what the columns hold, and in which order.
use agentboard.Prelude.{
  ℕ, ◌+◌, ◌≡◌, Bool, ◌&&◌, ◌||◌, List, [], ◌∷◌, if◌then◌else◌, is_empty, any, keep, length,
  IsAscending, Str, str_eq,
}
use agentboard.Model.Status
use agentboard.Model.Status.{Status}
use agentboard.Model.Data.{Task}
use agentboard.View.Columns.{Column, more_urgent, in_column}

-- The column has exactly the tasks of its status, in order.
pub record IsColumn (tasks : List Task) (project : Str) (s : Status) (c : Column) : Type 0 where
  pub its_status : c.status ≡ s
  pub its_tasks : (p : Task → Bool) → any p c.tasks ≡ any (λ t. in_column project s t && p t) tasks
  pub in_order : IsAscending more_urgent c.tasks

unfoldable pub total : List Column → ℕ
total [] = 0
total (c ∷ cs) = length c.tasks + total cs

-- The tasks of the project with a known status.
unfoldable pub is_shown : Str → Task → Bool
unfolding Status.valid
is_shown project t = (is_empty project || str_eq t.project project) && Status.valid t.status

one : Bool → ℕ
one b = if b then 1 else 0

kept : List Task → Str → Status → ℕ
kept tasks project s = length (keep (in_column project s) tasks)
