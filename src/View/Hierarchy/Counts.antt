-- ===== src/View/Hierarchy/Counts.antt =====
-- internal/view/view.go: the progress of an epic is that of the tasks beneath it.
use agentboard.Prelude.{
  ◌≡◌, refl, inl, inr, false, List, [], ◌∷◌, Bool-cases, is_empty, keep, Str, str_eq, Table,
}
use agentboard.Model.Kind
use agentboard.Model.Data.{Task}
use agentboard.View.Hierarchy.{index, epic_in, in_epic, progress, counted, epic_progress}

counted-keep :
    (by_id : Table Task) (e : Str) (ts : List Task)
    → counted by_id e ts
      ≡ progress (keep (λ t. Kind.eq t.kind Kind.task) (keep (λ t. str_eq (epic_in by_id t) e) ts))
unfolding counted progress
counted-keep by_id e [] = refl
counted-keep by_id e (t ∷ ts) = elim (Bool-cases (str_eq (epic_in by_id t) e)) [
  | inl under ↦ elim (Bool-cases (Kind.eq t.kind Kind.task)) [
    | inl leaf ↦ rw (under, leaf, counted-keep by_id e ts) refl
    | inr other ↦ rw (under, other, counted-keep by_id e ts) refl
  ]
  | inr out ↦ elim (Bool-cases (Kind.eq t.kind Kind.task)) [
    | inl leaf ↦ rw (out, leaf, counted-keep by_id e ts) refl
    | inr other ↦ rw (out, other, counted-keep by_id e ts) refl
  ]
]

-- The progress of an epic is the progress of the leaf tasks among those that its view lists.
epic_progress-in_epic :
    (tasks : List Task) (e : Str)
    → is_empty e ≡ false
    → epic_progress tasks e ≡ progress (keep (λ t. Kind.eq t.kind Kind.task) (in_epic tasks e))
unfolding epic_progress in_epic
epic_progress-in_epic tasks e h = rw h (counted-keep (index tasks) e tasks)
