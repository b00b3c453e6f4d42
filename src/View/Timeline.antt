-- ===== src/View/Timeline.antt =====
-- internal/view/timeline.go: the window of the timeline, its months and weeks, and the bars of the
-- tasks. A fraction is kept exact, as a numerator and a denominator.
pub mod Months
pub mod Weeks
pub mod Bars
pub mod Rows
use agentboard.Prelude.{
  ℕ, zero, suc, ◌+◌, ◌-◌, ◌*◌, ◌/◌, ◌%◌, min, Bool, true, false, not, ◌&&◌, ◌||◌, Option, none,
  some, List, [], ◌∷◌, ◌++◌, ltb, leb, ◌==◌, if◌then◌else◌, is_some, take, keep, sort_by, Str,
  runes,
}
use agentboard.Prelude.Int.{ℤ, pos, negsuc, neg_ℕ}
use agentboard.Text.TaskId
use agentboard.Model.Data.{Task}
use agentboard.Model.Date
use agentboard.Model.Date.{Date, zero_date}
use agentboard.Model.Calendar.{day_number}
use agentboard.Model.Calendar.Shift.{new_date, add_days, add_months}
use agentboard.Prelude.{str_lt}

abbrev default_timeline_months : ℕ
default_timeline_months = 3

unfoldable default_window : Date → Date × Date
unfolding add_months
default_window today =
    let start = new_date today.year today.month 1 in
    (start, add_months (pos default_timeline_months) start)

unfoldable shift_window : Date → Date → ℤ → Date × Date
unfolding add_months
shift_window start end months = (add_months months start, add_months months end)

-- `d.Weekday()`: Sunday is 0, and 0001-01-01 was a Monday.
unfoldable pub weekday : Date → ℕ
unfolding day_number
weekday d = (day_number d + 1) % 7

unfoldable pub week_start : Date → Date
unfolding weekday add_days
week_start d = add_days (neg_ℕ ((weekday d + 6) % 7)) d

-- The whole days of the longest time.Duration, at which `Sub` stops.
abbrev pub longest_days : ℕ
longest_days = 106751

unfoldable pub days_between : Date → Date → ℤ
unfolding day_number
days_between a b =
    if leb (day_number a) (day_number b)
    then pos (min (day_number b - day_number a) longest_days)
    else neg_ℕ (min (day_number a - day_number b) longest_days)

name_at : ℕ → List Str → Str
name_at n [] = []
name_at zero (s ∷ names) = s
name_at (suc n) (s ∷ names) = name_at n names

-- The short name of a month from 1 on.
month_name : ℕ → Str
unfolding name_at
month_name m = name_at (m - 1) (
    runes "Jan"
    ∷ runes "Feb"
    ∷ runes "Mar"
    ∷ runes "Apr"
    ∷ runes "May"
    ∷ runes "Jun"
    ∷ runes "Jul"
    ∷ runes "Aug"
    ∷ runes "Sep"
    ∷ runes "Oct"
    ∷ runes "Nov"
    ∷ runes "Dec"
    ∷ [])

-- `d.Format("Jan 2006")`
unfoldable month_label : Date → Str
unfolding Date.format month_name
month_label d = month_name d.month ++ runes " " ++ take 4 (Date.format d)

pub record Month : Type 0 where
  pub label : Str
  pub start : Date
  pub end : Date
  pub week_ticks : List Date

-- The loop over the weeks, from `w` on.
unfoldable pub ticks_from : ℕ → Date → Date → Date → List Date
unfolding Date.before add_days
ticks_from zero seg_start seg_end w = []
ticks_from (suc fuel) seg_start seg_end w =
    let rest = ticks_from fuel seg_start seg_end (add_days (pos 7) w) in
    if Date.before w seg_end then if Date.before seg_start w then w ∷ rest else rest else []

-- Each turn moves on by a week: fuel for every day up to the end is enough.
unfoldable pub week_ticks : Date → Date → List Date
unfolding ticks_from week_start day_number
week_ticks seg_start seg_end =
    ticks_from (day_number seg_end) seg_start seg_end (week_start seg_start)

-- The loop over the months, from `cur` on.
unfoldable pub months_from : ℕ → Date → Date → List Month
unfolding Date.before add_months week_ticks month_label
months_from zero cur end = []
months_from (suc fuel) cur end =
    let month_end = add_months (pos 1) (new_date cur.year cur.month 1) in
    let seg_end = if Date.before end month_end then end else month_end in
    let rest = months_from fuel month_end end in
    let m : Month = record {
      label = month_label cur;
      start = cur;
      end = seg_end;
      week_ticks = week_ticks cur seg_end;
    } in
    if Date.before cur end then m ∷ rest else []

-- Each turn moves on by a day at least.
unfoldable pub months_in_window : Date → Date → List Month
unfolding months_from Date.before day_number
months_in_window start end =
    if not (Date.before start end) then [] else months_from (day_number end) start end

pub record Ratio : Type 0 where
  pub num : ℕ
  pub den : ℕ

abbrev pub share_of : ℕ → ℤ → Ratio
share_of total (pos n) = record { num = if ltb total n then total else n; den = total }
share_of total (negsuc n) = record { num = 0; den = total }

abbrev pub share_within : ℤ → ℤ → Ratio
share_within (pos zero) days = record { num = 0; den = 1 }
share_within (negsuc n) days = record { num = 0; den = 1 }
share_within (pos (suc n)) days = share_of (suc n) days

unfoldable pub fraction : Date → Date → Date → Ratio
unfolding days_between
fraction d win_start win_end =
    share_within (days_between win_start win_end) (days_between win_start d)

unfoldable pub range_of : Option Date → Option Date → Option (Date × Date)
unfolding Date.before add_days
range_of none e = none
range_of (some s) none = none
range_of (some s) (some e) = if Date.before e s then none else some (s, add_days (pos 1) e)

-- `none` where `ok` is false.
unfoldable pub task_range : Task → Option (Date × Date)
unfolding range_of
task_range t = range_of t.start_date t.end_date

pub record Bar : Type 0 where
  pub left : Ratio
  -- over the same denominator
  pub width : ℕ

unfoldable pub bar_of : Date → Date → Option (Date × Date) → Option Bar
unfolding Date.before fraction
bar_of win_start win_end none = none
bar_of win_start win_end (some (start, end)) =
    let left = fraction start win_start win_end in
    let right = fraction end win_start win_end in
    if not (Date.before start win_end) || not (Date.before win_start end)
    then none
    else if leb right.num left.num
    then none
    else some (record { left = left; width = right.num - left.num })

unfoldable pub bar_span : Date → Date → Task → Option Bar
unfolding bar_of task_range
bar_span win_start win_end t = bar_of win_start win_end (task_range t)

unfoldable pub has_timeline_range : Task → Bool
has_timeline_range t = is_some t.start_date && is_some t.end_date

unfoldable window_label : Date → Date → Str
unfolding month_label month_name add_days
window_label start end =
    let last_month = add_days (negsuc 0) end in
    if (start.year == last_month.year) && (start.month == last_month.month)
    then month_label start
    else if start.year == last_month.year
    then month_name start.month ++ runes " - " ++ month_label last_month
    else month_label start ++ runes " - " ++ month_label last_month

pub record TimelineRow : Type 0 where
  pub task : Task
  pub bar : Bar

abbrev row_before : Task → Option Bar → List TimelineRow → List TimelineRow
row_before t none rows = rows
row_before t (some b) rows = record { task = t; bar = b } ∷ rows

unfoldable pub timeline_rows : List Task → Date → Date → List TimelineRow
unfolding bar_span
timeline_rows [] win_start win_end = []
timeline_rows (t ∷ ts) win_start win_end =
    row_before t (bar_span win_start win_end t) (timeline_rows ts win_start win_end)

-- For tasks with a start date.
unfoldable pub starts_first : Option Date → Option Date → Task → Task → Bool
unfolding Date.before Date.equal
starts_first (some s) (some r) a b =
    if not (Date.equal s r) then Date.before s r else str_lt a.id b.id
starts_first _ _ a b = str_lt a.id b.id

unfoldable pub sort_by_start_date : List Task → List Task
unfolding has_timeline_range starts_first
sort_by_start_date ts =
    sort_by (λ a b. starts_first a.start_date b.start_date a b) (keep has_timeline_range ts)
