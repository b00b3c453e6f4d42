-- ===== src/Board/Edits.antt =====
-- board.go: what the field assignments of Update come to.
use agentboard.Prelude.{
  ◌≡◌, refl, ap, ◌∙◌, true, Option, none, some, List, [], arith, Str, str_eq_iff,
}
use agentboard.Text.{trim_space}
use agentboard.Model.Priority
use agentboard.Model.Priority.{Priority}
use agentboard.Model.Date
use agentboard.Model.Date.{Date}
use agentboard.Model.Data.{Task}
use agentboard.Board.Types.{Patch}
use agentboard.Board.Update.{
  PatchInput, edited, final_date, Changes, with_title, with_description, with_priority, with_labels,
  with_parent, with_start, with_end, date_ptr_equal,
}

-- The patch's value where it names the field, else the old one.
abbrev pub or_old {ℓ} : {A : Type ℓ} → Option A → A → A
or_old none old = old
or_old (some new) old = new

abbrev pub trimmed : Option Str → Option Str
trimmed none = none
trimmed (some v) = some (trim_space v)

-- The fields of a task that a patch names, replaced.
unfoldable pub patched : Patch → PatchInput → Task → Task
patched p i t = record t {
  title = or_old (trimmed p.title) t.title;
  description = or_old p.description t.description;
  priority = or_old p.priority t.priority;
  labels = or_old i.labels t.labels;
  parent = or_old p.parent t.parent;
  start_date = final_date p.start_date i.start_date t.start_date;
  end_date = final_date p.end_date i.end_date t.end_date;
}

date_ptr_equal_sound : (a b : Option Date) → date_ptr_equal a b ≡ true → a ≡ b
date_ptr_equal_sound none none h = refl
date_ptr_equal_sound none (some b) h = cc
date_ptr_equal_sound (some a) none h = cc
date_ptr_equal_sound (some a) (some b) h = cc (Date.equal_sound a b h)

with_title-task :
    (o : Option Str) (c : Changes)
    → (with_title o c).0 ≡ record c.0 { title = or_old (trimmed o) c.0.title }
unfolding with_title
with_title-task none c = refl
with_title-task (some v) c = ground (arith, str_eq_iff (trim_space v) c.0.title)

with_description-task :
    (o : Option Str) (c : Changes)
    → (with_description o c).0 ≡ record c.0 { description = or_old o c.0.description }
unfolding with_description
with_description-task none c = refl
with_description-task (some v) c = ground (arith, str_eq_iff v c.0.description)

with_priority-task :
    (o : Option Priority) (c : Changes)
    → (with_priority o c).0 ≡ record c.0 { priority = or_old o c.0.priority }
unfolding with_priority
with_priority-task none c = refl
with_priority-task (some q) c = ground (arith, Priority.eq_iff q c.0.priority)

with_labels-task :
    (o : Option (List Str)) (c : Changes)
    → (with_labels o c).0 ≡ record c.0 { labels = or_old o c.0.labels }
unfolding with_labels
with_labels-task none c = refl
with_labels-task (some ls) c = refl

with_parent-task :
    (o : Option Str) (c : Changes)
    → (with_parent o c).0 ≡ record c.0 { parent = or_old o c.0.parent }
unfolding with_parent
with_parent-task none c = refl
with_parent-task (some v) c = ground (arith, str_eq_iff v c.0.parent)

-- The new date is the old one where the patch does not name the field.
with_start-task :
    (o : Option Str) (parsed old : Option Date) (c : Changes)
    → c.0.start_date ≡ old
    → (with_start o (final_date o parsed old) c).0
      ≡ record c.0 { start_date = final_date o parsed old }
unfolding with_start
with_start-task none parsed old c e = ground arith
with_start-task (some v) parsed old c e = ground (arith, date_ptr_equal_sound c.0.start_date parsed)

with_end-task :
    (o : Option Str) (parsed old : Option Date) (c : Changes)
    → c.0.end_date ≡ old
    → (with_end o (final_date o parsed old) c).0 ≡ record c.0 { end_date = final_date o parsed old }
unfolding with_end
with_end-task none parsed old c e = ground arith
with_end-task (some v) parsed old c e = ground (arith, date_ptr_equal_sound c.0.end_date parsed)

-- The first five fields.
edited_texts : Patch → PatchInput → Task → Changes
edited_texts p i t = with_parent p.parent (
    with_labels i.labels
      (with_priority p.priority (with_description p.description (with_title p.title (t, [])))))

edited_texts-task :
    (p : Patch) (i : PatchInput) (t : Task)
    → (edited_texts p i t).0 ≡ record t {
      title = or_old (trimmed p.title) t.title;
      description = or_old p.description t.description;
      priority = or_old p.priority t.priority;
      labels = or_old i.labels t.labels;
      parent = or_old p.parent t.parent;
    }
unfolding edited_texts
edited_texts-task p i t =
    simp (
      with_parent-task, with_labels-task, with_priority-task, with_description-task,
      with_title-task,
    )

pub edited-patched : (p : Patch) (i : PatchInput) (t : Task) → (edited p i t).0 ≡ patched p i t
unfolding edited patched edited_texts
edited-patched p i t =
    let texts = edited_texts-task p i t in
    let c = edited_texts p i t in
    let start =
      with_start-task p.start_date i.start_date t.start_date c (ap (λ u. u.start_date) texts) in
    let c' = with_start p.start_date (final_date p.start_date i.start_date t.start_date) c in
    let whole =
      start
      ∙ ap
          (λ (u : Task). record u {
            start_date = final_date p.start_date i.start_date t.start_date;
          })
          texts in
    with_end-task p.end_date i.end_date t.end_date c' (ap (λ u. u.end_date) whole)
    ∙ ap (λ (u : Task). record u { end_date = final_date p.end_date i.end_date t.end_date }) whole
