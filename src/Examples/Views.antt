-- ===== src/Examples/Views.antt =====
-- A project with an epic, a story and two tasks, as the browser shows it.
use agentboard.Prelude.{
  ◌≡◌, ◌↔◌, refl, ap, true, none, some, List, [], ◌∷◌, Str, runes, lookup, values, str_eq,
  str_eq_iff, arith, subst, sym, ◌∙◌, inl, inr, ◌⊎◌, inr, ◌⊎◌,
}
use agentboard.Prelude.Int.{pos}
use agentboard.Model.Status
use agentboard.Model.Status.{Status, todo, in_progress}
use agentboard.Model.Kind
use agentboard.Model.Kind.{Kind}
use agentboard.Model.Priority
use agentboard.Model.Priority.{high}
use agentboard.Text.{key_re}
use agentboard.Text.TaskId.{task_id}
use agentboard.Text.Decimal.{decimal}
use agentboard.Board.Consistency.Rules.{IsTask, IsConsistent}
use agentboard.Model.Data.{Task, State, Project}
use agentboard.View.Filter.{Filter, no_filter}
use agentboard.View.Filter.Query.{
  UrlCodec, IsUrlCodecFor, is_settable, values_of, filter_query, parse_filter_query,
  parse_filter_query-filter_query,
}
use agentboard.View.Hierarchy.{epic_of}
use agentboard.View.Hierarchy.Epics.{IsUnder, epic_of_iff}

abbrev item : Str → Kind → Str → Status → Task
item id kind parent status = record {
  id = id;
  project = runes "AB";
  kind = kind;
  parent = parent;
  title = runes "Write";
  description = [];
  status = status;
  priority = high;
  labels = [];
  assignee = [];
  lease_expires = none;
  lease_seconds = 0;
  created_by = runes "ann";
  updated_by = runes "ann";
  created_at = 20;
  updated_at = 20;
  start_date = none;
  end_date = none;
}

abbrev tasks : List Task
tasks =
    item (runes "AB-2") Kind.epic [] todo
    ∷ item (runes "AB-10") Kind.story (runes "AB-2") in_progress
    ∷ item (runes "AB-3") Kind.task (runes "AB-10") Status.done
    ∷ item (runes "AB-4") Kind.task [] todo
    ∷ []

abbrev filter : Filter
filter = record no_filter { query = runes "wri"; status = in_progress }

-- An encoding of this one filter's values.
abbrev url : UrlCodec
url = record {
  encode = λ v. runes "q=wri&status=in_progress";
  parse = λ s. some (values_of filter);
}

url-IsUrlCodecFor : IsUrlCodecFor url (values_of filter)
url-IsUrlCodecFor = record {
  back = values_of filter;
  parses = refl;
  same = λ k. refl;
  escapes = refl;
}

parse_filter_query-filter_query_example :
    (parse_filter_query url (filter_query url filter) ≡ filter)
    × (parse_filter_query url (b'?' ∷ filter_query url filter) ≡ filter)
parse_filter_query-filter_query_example =
    parse_filter_query-filter_query url filter url-IsUrlCodecFor (
      unfold str_eq is_settable Status.valid Status.eq Kind.valid Kind.eq Priority.valid
        Priority.eq in
      refl)

-- A board with one project, an epic and a story in it.
abbrev pub epic : Task
epic = item (runes "AB-2") Kind.epic [] todo

abbrev pub story : Task
story = item (runes "AB-10") Kind.story (runes "AB-2") todo

abbrev project : Project
project = record { key = runes "AB"; name = runes "Alpha"; next_seq = 10; created_at = 10 }

abbrev pub state : State
state = record {
  version = pos 3;
  projects = (runes "AB", project) ∷ [];
  tasks = (runes "AB-2", epic) ∷ (runes "AB-10", story) ∷ [];
  agents = [];
  users = [];
  activity = [];
  next_activity_id = 0;
  archived_through = 0;
}

only : {V : Type 0} (k j : Str) (v w : V) → lookup j ((k, v) ∷ []) ≡ some w → (k ≡ j) × (v ≡ w)
unfolding lookup
only k j v w h = ground (arith, str_eq_iff k j)

one_of_two :
    (k l j : Str) (v u w : Task)
    → lookup j ((k, v) ∷ (l, u) ∷ []) ≡ some w
    → ((k ≡ j) × (v ≡ w)) ⊎ ((l ≡ j) × (u ≡ w))
unfolding lookup
one_of_two k l j v u w h = ground (arith, str_eq_iff k j, str_eq_iff l j)

epic-IsTask : IsTask state.projects state.tasks (runes "AB-2") epic
epic-IsTask = record {
  id_eq = refl;
  numbered =
      (project, 2, unfold lookup str_eq in refl, unfold task_id decimal in refl, omega arith);
  status_valid = unfold Status.valid in refl;
  priority_valid = unfold Priority.valid in refl;
  kind_valid = unfold Kind.valid in refl;
  dates_ordered = refl;
  parent = inl refl;
  lease_sound = inl refl;
}

story-IsTask : IsTask state.projects state.tasks (runes "AB-10") story
story-IsTask = record {
  id_eq = refl;
  numbered =
      (project, 10, unfold lookup str_eq in refl, unfold task_id decimal in refl, omega arith);
  status_valid = unfold Status.valid in refl;
  priority_valid = unfold Priority.valid in refl;
  kind_valid = unfold Kind.valid in refl;
  dates_ordered = refl;
  parent = inr (epic, unfold lookup str_eq in refl, refl, unfold Kind.level in omega arith);
  lease_sound = inl refl;
}

moved :
    {j k : Str} {t u : Task}
    → j ≡ k
    → t ≡ u
    → IsTask state.projects state.tasks j t
    → IsTask state.projects state.tasks k u
moved {j} {k} {t} {u} e f h =
    subst (λ i. IsTask state.projects state.tasks i u) e
      (subst (IsTask state.projects state.tasks j) f h)

pub state-IsConsistent : IsConsistent state
state-IsConsistent = record {
  projects_distinct = (unfold lookup in refl, tt);
  tasks_distinct = (unfold lookup str_eq in refl, (unfold lookup in refl, tt));
  agents_distinct = tt;
  users_distinct = tt;
  task_ok = λ id t h. elim (one_of_two (runes "AB-2") (runes "AB-10") id epic story t h) [
    | inl (k, v) ↦ moved k v epic-IsTask
    | inr (k, v) ↦ moved k v story-IsTask
  ];
  project_ok = λ key p h.
      let (k, v) = only (runes "AB") key project p h in
      record {
        key_eq = ap (λ (q : Project). q.key) (sym v) ∙ k;
        key_valid = subst (λ i. key_re i ≡ true) k (unfold key_re in refl);
      };
  agent_ok = λ name a h. unfold lookup in cc;
  user_ok = λ email u h. unfold lookup in cc;
  activity_rising = omega arith;
}

epic_of_iff_example :
    (epic_of (values state.tasks) story ≡ runes "AB-2") ↔ IsUnder state.tasks (runes "AB-2") story
epic_of_iff_example =
    epic_of_iff state (runes "AB-10") (runes "AB-2") story state-IsConsistent
      (unfold lookup str_eq in refl) (λ e. cc)
