-- ===== src/Examples/Dates.antt =====
-- Dates of the spring of 2026, and the timeline of a task in it.
use agentboard.Prelude.{
  ◌≡◌, refl, ◌&&◌, none, some, [], runes, any, ◌==◌, arith, if◌then◌else◌, ltb, leb,
}
use agentboard.Model.Status.{todo}
use agentboard.Model.Priority.{high}
use agentboard.Model.Kind
use agentboard.Model.Data.{Task}
use agentboard.Model.Date
use agentboard.Model.Date.{Date, unmarshal_json, marshal_json, unmarshal_json-marshal_json}
use agentboard.Model.Calendar.{day_number, days_before_month}
use agentboard.Model.Calendar.Order.{IsDate}
use agentboard.Model.Calendar.Shift.{new_date}
use agentboard.View.Timeline.{weekday, week_ticks, months_in_window, bar_span}
use agentboard.View.Timeline.Months.{Tiles, months_in_window-Tiles}
use agentboard.View.Timeline.Weeks.{week_ticks_lem}
use agentboard.View.Timeline.Bars.{day_bar, bar_span_lem}

abbrev start : Date
start = new_date 2026 3 10

abbrev end : Date
end = new_date 2026 5 1

start-IsDate : IsDate start
start-IsDate = record { valid = unfold Date.is_valid Date.days_in in refl; year_pos = omega arith }

end-IsDate : IsDate end
end-IsDate = record { valid = unfold Date.is_valid Date.days_in in refl; year_pos = omega arith }

unmarshal_json-marshal_json_example : unmarshal_json (marshal_json start) ≡ some start
unmarshal_json-marshal_json_example =
    unmarshal_json-marshal_json start start-IsDate.valid (omega arith)

months_in_window-Tiles_example : Tiles start end (months_in_window start end)
months_in_window-Tiles_example =
    months_in_window-Tiles start end start-IsDate end-IsDate (unfold Date.before in refl)

week_ticks_lem_example : any (Date.equal (new_date 2026 3 16)) (week_ticks start end) ≡ (
    Date.before start (new_date 2026 3 16)
    && Date.before (new_date 2026 3 16) end
    && (weekday (new_date 2026 3 16) == 1))
week_ticks_lem_example =
    week_ticks_lem start end (new_date 2026 3 16) start-IsDate end-IsDate
      (record { valid = unfold Date.is_valid Date.days_in in refl; year_pos = omega arith })

abbrev dated : Task
dated = record {
  id = runes "AB-1";
  project = runes "AB";
  kind = Kind.task;
  parent = [];
  title = runes "Write";
  description = [];
  status = todo;
  priority = high;
  labels = [];
  assignee = [];
  lease_expires = none;
  lease_seconds = 0;
  created_by = runes "ann";
  updated_by = runes "ann";
  created_at = 20;
  updated_at = 20;
  start_date = some (new_date 2026 3 1);
  end_date = some (new_date 2026 3 20);
}

-- The task has begun before the window.
bar_span_lem_example : bar_span start end dated ≡ (
    if leb (day_number (new_date 2026 3 1)) (day_number (new_date 2026 3 20))
      && ltb (day_number (new_date 2026 3 1)) (day_number end)
      && leb (day_number start) (day_number (new_date 2026 3 20))
    then some (
        day_bar
          (day_number start)
          (day_number end)
          (day_number (new_date 2026 3 1))
          (day_number (new_date 2026 3 20)))
    else none)
bar_span_lem_example =
    bar_span_lem start end (new_date 2026 3 1) (new_date 2026 3 20) dated start-IsDate end-IsDate
      (record { valid = unfold Date.is_valid Date.days_in in refl; year_pos = omega arith })
      (record { valid = unfold Date.is_valid Date.days_in in refl; year_pos = omega arith })
      (unfold day_number days_before_month Date.days_in in omega arith)
      (unfold day_number days_before_month Date.days_in in omega arith) refl refl

drawn : bar_span start end dated ≡ some (record { left = record { num = 0; den = 52 }; width = 11 })
unfolding bar_span day_number days_before_month Date.days_in Date.before
drawn = refl
