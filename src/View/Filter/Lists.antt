-- ===== src/View/Filter/Lists.antt =====
-- internal/view/filter.go: which tasks a filter shows.
use agentboard.Prelude.{Bool, ◌&&◌, ◌||◌, [], if◌then◌else◌, is_empty, str_eq}
use agentboard.Model.Status
use agentboard.Model.Kind
use agentboard.Model.Priority
use agentboard.Model.Data.{Task}
use agentboard.View.Filter.{Filter, match_query, unassigned}

-- What each field of the filter asks of a task: the text of the query, and of the assignee that it is the
-- agent's name, or that nobody is assigned where the filter says so.
unfoldable pub is_asked_for : Filter → Task → Bool
unfolding Status.eq Kind.eq Priority.eq match_query
is_asked_for f t =
    (is_empty f.query || match_query t f.query)
    && (is_empty f.project || str_eq t.project f.project)
    && (Status.eq f.status (Status.unknown []) || Status.eq t.status f.status)
    && (Kind.eq f.kind (Kind.unknown []) || Kind.eq t.kind f.kind)
    && (Priority.eq f.priority (Priority.unknown []) || Priority.eq t.priority f.priority)
    && (if str_eq f.assignee unassigned
        then is_empty t.assignee
        else is_empty f.assignee || str_eq t.assignee f.assignee)
