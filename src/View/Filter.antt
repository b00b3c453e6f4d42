-- ===== src/View/Filter.antt =====
-- internal/view/filter.go: the filter bar. An empty field of the filter matches everything; the empty status, kind
-- or priority is `unknown []`.
pub mod Lists
pub mod Query
use agentboard.Prelude.{
  ℕ, Bool, true, false, not, ◌&&◌, ◌||◌, List, [], ◌∷◌, ◌==◌, if◌then◌else◌, is_empty, any, keep,
  sort_by, Str, runes, str_eq, str_lt,
}
use agentboard.Text.{contains, to_lower}
use agentboard.Model.Status
use agentboard.Model.Status.{Status}
use agentboard.Model.Kind
use agentboard.Model.Kind.{Kind}
use agentboard.Model.Priority
use agentboard.Model.Priority.{Priority}
use agentboard.Model.Data.{Task}

abbrev pub unassigned : Str
unassigned = runes "-unassigned-"

pub record Filter : Type 0 where
  pub query : Str
  pub project : Str
  pub epic : Str
  pub status : Status
  pub assignee : Str
  pub kind : Kind
  pub priority : Priority

-- `Filter{}`
abbrev pub no_filter : Filter
no_filter = record {
  query = [];
  project = [];
  epic = [];
  status = Status.unknown [];
  assignee = [];
  kind = Kind.unknown [];
  priority = Priority.unknown [];
}

-- `f == Filter{}`
unfoldable pub empty : Filter → Bool
unfolding Status.eq Kind.eq Priority.eq
empty f =
    is_empty f.query
    && is_empty f.project
    && is_empty f.epic
    && Status.eq f.status (Status.unknown [])
    && is_empty f.assignee
    && Kind.eq f.kind (Kind.unknown [])
    && Priority.eq f.priority (Priority.unknown [])

unfoldable pub match_query : Task → Str → Bool
unfolding contains to_lower
match_query t query =
    let q = to_lower query in
    let found : Str → Bool = λ s. contains (to_lower s) q in
    found t.id || found t.title || found t.description || any found t.labels

-- The cases of the switch, each of which refuses the task.
unfoldable pub match : Filter → Task → Bool
unfolding match_query Status.eq Kind.eq Priority.eq
match f t =
    if not (is_empty f.project) && not (str_eq t.project f.project)
    then false
    else if not (Status.eq f.status (Status.unknown [])) && not (Status.eq t.status f.status)
    then false
    else if not (Kind.eq f.kind (Kind.unknown [])) && not (Kind.eq t.kind f.kind)
    then false
    else if not (Priority.eq f.priority (Priority.unknown []))
        && not (Priority.eq t.priority f.priority)
    then false
    else if str_eq f.assignee unassigned && not (is_empty t.assignee)
    then false
    else if not (is_empty f.assignee)
        && not (str_eq f.assignee unassigned)
        && not (str_eq t.assignee f.assignee)
    then false
    else is_empty f.query || match_query t f.query

unfoldable pub filter_tasks : List Task → Filter → List Task
unfolding empty match
filter_tasks ts f = if empty f then ts else keep (match f) ts

unfoldable assignees_from : List Str → List Task → List Str
assignees_from seen [] = []
assignees_from seen (t ∷ ts) =
    if not (is_empty t.assignee) && not (any (str_eq t.assignee) seen)
    then t.assignee ∷ assignees_from (t.assignee ∷ seen) ts
    else assignees_from seen ts

unfoldable assignees : List Task → List Str
unfolding assignees_from
assignees ts = sort_by str_lt (assignees_from [] ts)
