-- ===== src/View/Timeline/Rows.antt =====
-- internal/view/timeline.go: which tasks the timeline shows, and in which order.
use agentboard.Prelude.{
  ◌≡◌, refl, ap, ◌∙◌, inl, inr, Bool, true, false, not, ◌&&◌, Option, none, some, List, [], ◌∷◌,
  map, arith, if◌then◌else◌, Option-cases, is_some, str_lt_asym, any, any-sort_by, any-keep, keep,
  IsAscending, sort_by-IsAscending,
}
use agentboard.Model.Data.{Task}
use agentboard.Model.Date
use agentboard.Model.Date.{Date}
use agentboard.View.Timeline.{
  bar_span, TimelineRow, timeline_rows, has_timeline_range, starts_first, sort_by_start_date,
}

rows-tasks :
    (ts : List Task) (ws we : Date)
    → map (λ (r : TimelineRow). r.task) (timeline_rows ts ws we)
      ≡ keep (λ t. is_some (bar_span ws we t)) ts
unfolding timeline_rows
rows-tasks [] ws we = refl
rows-tasks (t ∷ ts) ws we = elim (Option-cases (bar_span ws we t)) [
  | inl none_e ↦ rw none_e (rows-tasks ts ws we)
  | inr (b, some_e) ↦ rw some_e (ap (λ us. t ∷ us) (rows-tasks ts ws we))
]

before_asym : (a b : Date) → Date.before a b ≡ true → Date.before b a ≡ false
unfolding Date.before
before_asym a b h = ground arith

equal_sym : (a b : Date) → Date.equal a b ≡ Date.equal b a
unfolding Date.equal
equal_sym a b = ground arith

starts_first_asym :
    (s r : Option Date) (a b : Task) → starts_first s r a b ≡ true → starts_first r s b a ≡ false
unfolding starts_first
starts_first_asym none none a b h = str_lt_asym a.id b.id h
starts_first_asym none (some r) a b h = str_lt_asym a.id b.id h
starts_first_asym (some s) none a b h = str_lt_asym a.id b.id h
starts_first_asym (some s) (some r) a b h =
    by_tests (Date.equal s r) (Date.equal r s) (equal_sym s r) (before_asym s r)
      (str_lt_asym a.id b.id) h
  where
    by_tests :
        (e f : Bool) {b c l k : Bool}
        → e ≡ f
        → (b ≡ true → c ≡ false)
        → (l ≡ true → k ≡ false)
        → (if not e then b else l) ≡ true
        → (if not f then c else k) ≡ false
    by_tests true true d b l h = l h
    by_tests true false d b l h = cc
    by_tests false true d b l h = cc
    by_tests false false d b l h = b h

-- Of tasks sorted by start date, the timeline draws those that have a bar, in that order; the sorted
-- tasks are the tasks with both dates (one that passes any given test is among them exactly if one of
-- the tasks with both dates passes it), and stand in the order of their start dates.
timeline_rows-sort_by_start_date :
    (ts : List Task) (ws we : Date) (p : Task → Bool)
    → (map (λ (r : TimelineRow). r.task) (timeline_rows (sort_by_start_date ts) ws we)
        ≡ keep (λ t. is_some (bar_span ws we t)) (sort_by_start_date ts))
      × (any p (sort_by_start_date ts) ≡ any (λ t. has_timeline_range t && p t) ts)
      × IsAscending (λ a b. starts_first a.start_date b.start_date a b) (sort_by_start_date ts)
timeline_rows-sort_by_start_date ts ws we p =
    let less : Task → Task → Bool = λ a b. starts_first a.start_date b.start_date a b in
    (
      rows-tasks (sort_by_start_date ts) ws we,
      unfold sort_by_start_date in
          any-sort_by p less (keep has_timeline_range ts) ∙ any-keep p has_timeline_range ts,
      unfold sort_by_start_date in
          sort_by-IsAscending less (λ a b. starts_first_asym a.start_date b.start_date a b)
            (keep has_timeline_range ts),
    )
