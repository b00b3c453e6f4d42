-- ===== src/View/Hierarchy.antt =====
-- internal/view/view.go: the epic that a task belongs to, and what is counted under an epic.
pub mod Epics
pub mod Counts
use agentboard.Prelude.{
  ℕ, zero, suc, ◌+◌, Bool, true, not, ◌&&◌, ◌||◌, Option, none, some, List, [], ◌∷◌, if◌then◌else◌,
  is_empty, keep, Str, str_eq, Table, lookup, insert,
}
use agentboard.Model.Kind
use agentboard.Model.Status
use agentboard.Model.Data.{Task}

abbrev pub max_depth : ℕ
max_depth = 8

-- The loop of `index`; a later task with the same id takes the place of the earlier.
unfoldable pub index_from : Table Task → List Task → Table Task
index_from m [] = m
index_from m (t ∷ ts) = index_from (insert t.id t m) ts

unfoldable pub index : List Task → Table Task
unfolding index_from
index ts = index_from [] ts

abbrev pub on_parent : Option Task → (Task → Str) → Str
on_parent none walk = []
on_parent (some p) walk = walk p

-- The walk to the parents, with `depth` turns left.
unfoldable pub epic_walk : ℕ → Table Task → Task → Str
unfolding Kind.eq
epic_walk zero by_id t = []
epic_walk (suc depth) by_id t =
    let up = on_parent (lookup t.parent by_id) (epic_walk depth by_id) in
    if Kind.eq t.kind Kind.epic then t.id else if is_empty t.parent then [] else up

-- `epicOf(byID, t)`
unfoldable pub epic_in : Table Task → Task → Str
unfolding epic_walk
epic_in by_id t = epic_walk max_depth by_id t

unfoldable pub epic_of : List Task → Task → Str
unfolding index epic_in
epic_of tasks t = epic_in (index tasks) t

unfoldable pub in_epic : List Task → Str → List Task
unfolding index epic_in
in_epic tasks epic =
    let by_id = index tasks in
    if is_empty epic then tasks else keep (λ t. str_eq (epic_in by_id t) epic) tasks

unfoldable epics : List Task → List Task
unfolding Kind.eq
epics tasks = keep (λ t. Kind.eq t.kind Kind.epic) tasks

unfoldable children : List Task → Str → List Task
children tasks id = keep (λ t. str_eq t.parent id) tasks

-- `done` and `total`
unfoldable pub progress : List Task → ℕ × ℕ
unfolding Status.eq
progress [] = (0, 0)
progress (t ∷ ts) =
    let (done, total) = progress ts in
    ((if Status.eq t.status Status.done then done + 1 else done), total + 1)

unfoldable pub counted : Table Task → Str → List Task → ℕ × ℕ
unfolding Status.eq Kind.eq epic_in
counted by_id epic [] = (0, 0)
counted by_id epic (t ∷ ts) =
    let (done, total) = counted by_id epic ts in
    if not (Kind.eq t.kind Kind.task) || not (str_eq (epic_in by_id t) epic)
    then (done, total)
    else ((if Status.eq t.status Status.done then done + 1 else done), total + 1)

unfoldable pub epic_progress : List Task → Str → ℕ × ℕ
unfolding counted index
epic_progress tasks epic = counted (index tasks) epic tasks
