-- ===== src/View/Columns.antt =====
-- internal/view/view.go: Columns, SortAgentsByRecency, Limit and SummarizeAgents.
pub mod Order
use agentboard.Prelude.{
  ℕ, ◌+◌, ◌-◌, Bool, true, not, ◌&&◌, ◌||◌, List, [], ◌∷◌, map, ltb, leb, ◌==◌, if◌then◌else◌,
  is_empty, keep, length, take, sort_by, Str, str_eq,
}
use agentboard.Model.Status
use agentboard.Model.Status.{Status}
use agentboard.Model.Priority
use agentboard.Model.Data.{Task, Agent}

-- model.Statuses
abbrev pub statuses : List Status
statuses = Status.todo ∷ Status.in_progress ∷ Status.review ∷ Status.done ∷ Status.blocked ∷ []

pub record Column : Type 0 where
  pub status : Status
  pub label : Str
  pub tasks : List Task

-- The most urgent first, then the most recently updated.
unfoldable pub more_urgent : Task → Task → Bool
unfolding Priority.rank
more_urgent a b =
    let ra = Priority.rank a.priority in
    let rb = Priority.rank b.priority in
    if not (ra == rb) then ltb rb ra else ltb b.updated_at a.updated_at

unfoldable pub in_column : Str → Status → Task → Bool
unfolding Status.eq
in_column project s t = (is_empty project || str_eq t.project project) && Status.eq t.status s

unfoldable pub column_of : List Task → Str → Status → Column
unfolding Status.label more_urgent in_column
column_of tasks project s = record {
  status = s;
  label = Status.label s;
  tasks = sort_by more_urgent (keep (in_column project s) tasks);
}

unfoldable pub columns : List Task → Str → List Column
unfolding column_of
columns tasks project = map (column_of tasks project) statuses

abbrev more_recent : Agent → Agent → Bool
more_recent a b = ltb b.last_heartbeat a.last_heartbeat

unfoldable sort_agents_by_recency : List Agent → List Agent
sort_agents_by_recency agents = sort_by more_recent agents

-- `n` is at least 0.
unfoldable limit {ℓ} : {A : Type ℓ} → List A → ℕ → List A
limit s n = if (n == 0) || leb (length s) n then s else take n s

pub record AgentSummary : Type 0 where
  pub total : ℕ
  pub online : ℕ
  pub offline : ℕ

unfoldable summarize_agents : List Agent → AgentSummary
summarize_agents agents =
    let total = length agents in
    let online = length (keep (λ a. a.online) agents) in
    record { total = total; online = online; offline = total - online }
