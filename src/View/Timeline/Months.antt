-- ===== src/View/Timeline/Months.antt =====
-- internal/view/timeline.go: the months and weeks that tile a window.
use agentboard.Prelude.{
  ℕ, zero, suc, ◌+◌, ◌-◌, ◌*◌, ◌%◌, ◌≤◌, ◌<◌, ◌≡◌, ◌⊎◌, inl, inr, refl, ◌∙◌, true, false, ◌&&◌,
  ◌||◌, List, [], ◌∷◌, arith, ltb, ◌==◌, Bool-cases,
}
use agentboard.Prelude.Int.{pos, neg_ℕ}
use agentboard.Model.Date
use agentboard.Model.Date.{Date}
use agentboard.Model.Calendar.{day_number}
use agentboard.Model.Calendar.Order.{
  IsDate, before_iff, not_before-day_number, lt-before, day_number-injective, before-day_number,
  Bounds, bounds,
}
use agentboard.Model.Calendar.Shift.{
  new_date, add_months, month_index, day_number-back, add_days-IsDate, add_months_lem,
  add_months-IsDate,
}
use agentboard.View.Timeline.{weekday, week_start, Month, months_from, months_in_window}

pub day_number-week_start :
    (d : Date) → day_number (week_start d) ≡ day_number d - ((day_number d + 1) % 7 + 6) % 7
unfolding week_start weekday
day_number-week_start d = day_number-back (((day_number d + 1) % 7 + 6) % 7) d

pub week_start-IsDate : (d : Date) → IsDate (week_start d)
unfolding week_start
week_start-IsDate d = add_days-IsDate (neg_ℕ ((weekday d + 6) % 7)) d

-- The start of a week is a Monday, at most six days before the date, or the date itself.
week_start_lem :
    (d : Date)
    → (weekday (week_start d) ≡ 1)
      × (day_number (week_start d) ≤ day_number d)
      × (day_number d < day_number (week_start d) + 7)
unfolding weekday
week_start_lem d =
    let e = day_number-week_start d in (omega (arith, e), omega (arith, e), omega (arith, e))

-- The first of the next month.
record IsNextMonth (d e : Date) : Type 0 where
  is_date : IsDate e
  first : e.day ≡ 1
  next : month_index e ≡ month_index d + 1

next_month : (d : Date) → IsDate d → IsNextMonth d (add_months (pos 1) (new_date d.year d.month 1))
next_month d v =
    let b = bounds d v.valid in
    let (e, one) =
      add_months_lem (pos 1) (new_date d.year d.month 1) (omega arith) (omega arith)
        (omega (arith, v.year_pos)) in
    record {
      is_date = add_months-IsDate (pos 1) (new_date d.year d.month 1);
      first = one;
      next = omega (arith, e, b.month_low);
    }

-- The dates of a segment are dates of one month.
InOneMonth : Date → Date → Type 0
InOneMonth start end =
    (d : Date)
    → IsDate d
    → Date.before d start ≡ false
    → Date.before d end ≡ true
    → (d.year ≡ start.year) × (d.month ≡ start.month)

-- Dates in the order of their months and days.
before_months :
    (a b : Date)
    → Bounds a
    → Bounds b
    → Date.before a b ≡ (
        ltb (month_index a) (month_index b)
        || ((month_index a == month_index b) && ltb a.day b.day))
unfolding Date.before
before_months a b x y =
    by_numbers a.year a.month a.day b.year b.month b.day x.month_low x.month_high y.month_low
      y.month_high
  where
    by_numbers :
        (y m d z n e : ℕ)
        → 1 ≤ m
        → m ≤ 12
        → 1 ≤ n
        → n ≤ 12
        → (ltb y z || ((y == z) && (ltb m n || ((m == n) && ltb d e)))) ≡ (
            ltb (12 * y + (m - 1)) (12 * z + (n - 1))
            || ((12 * y + (m - 1) == 12 * z + (n - 1)) && ltb d e))
    by_numbers y m d z n e h i j k = ground arith

same_month :
    (a b : Date)
    → Bounds a
    → Bounds b
    → month_index a ≡ month_index b
    → (a.year ≡ b.year) × (a.month ≡ b.month)
same_month a b x y e =
    let h = x.month_low in
    let i = x.month_high in
    let j = y.month_low in let k = y.month_high in (omega arith, omega arith)

month_end_later : (d e : Date) → IsDate d → IsNextMonth d e → Date.before d e ≡ true
month_end_later d e v n =
    let o = before_months d e (bounds d v.valid) (bounds e n.is_date.valid) in
    let m = n.next in rw o (ground arith)

whole_month : (s e : Date) → IsDate s → IsNextMonth s e → InOneMonth s e
unfolding InOneMonth
whole_month s e v n d w late early =
    let b = bounds s v.valid in
    let k = bounds d w.valid in
    let o = before_months d e k (bounds e n.is_date.valid) in
    let p = before_months d s k b in
    let m = n.next in let f = n.first in let low = k.day_low in same_month d s k b (ground arith)

-- A segment that begins at `start`, in a window up to `end`.
pub record IsSegment (start end : Date) (m : Month) : Type 0 where
  starts : m.start ≡ start
  non_empty : Date.before start m.end ≡ true
  one_month : InOneMonth start m.end
  -- the whole month, unless the window ends
  whole : (m.end ≡ end) ⊎ (m.end.day ≡ 1)

-- The segments follow on each other from `start` up to `end`.
unfoldable pub Tiles : Date → Date → List Month → Type 0
Tiles start end [] = start ≡ end
Tiles start end (m ∷ ms) = IsSegment start end m × Tiles m.end end ms

months_from_done :
    (fuel : ℕ) (cur end : Date) → Date.before cur end ≡ false → months_from fuel cur end ≡ []
unfolding months_from
months_from_done zero cur end h = refl
months_from_done (suc fuel) cur end h = rw h refl

months_from_past :
    (fuel : ℕ) (cur end : Date)
    → IsDate cur
    → IsDate end
    → day_number end ≤ day_number cur
    → months_from fuel cur end ≡ []
months_from_past fuel cur end v w le =
    months_from_done fuel cur end
      (before_iff cur end v w ∙ not_ltb (day_number cur) (day_number end) le)
  where
    not_ltb : (m n : ℕ) → n ≤ m → ltb m n ≡ false
    not_ltb m n h = ground arith

part_of_month :
    (s e end : Date)
    → IsDate s
    → IsDate end
    → IsNextMonth s e
    → Date.before end e ≡ true
    → InOneMonth s end
unfolding InOneMonth
part_of_month s e end v w n h d u late early =
    whole_month s e v n d u late (before_trans d end e u w n.is_date early h)
  where
    before_trans :
        (a b c : Date)
        → IsDate a
        → IsDate b
        → IsDate c
        → Date.before a b ≡ true
        → Date.before b c ≡ true
        → Date.before a c ≡ true
    before_trans a b c x y z h k =
        let ab = before-day_number a b x y h in
        let bc = before-day_number b c y z k in lt-before a c x z (omega arith)

months_from-Tiles :
    (fuel : ℕ) (cur end : Date)
    → IsDate cur
    → IsDate end
    → day_number cur ≤ day_number end
    → day_number end ≤ fuel + day_number cur
    → Tiles cur end (months_from fuel cur end)
unfolding Tiles months_from
months_from-Tiles zero cur end v w le enough = day_number-injective cur end v w (omega arith)
months_from-Tiles (suc fuel) cur end v w le enough =
    let month_end = add_months (pos 1) (new_date cur.year cur.month 1) in
    let n = next_month cur v in
    let later = before-day_number cur month_end v n.is_date (month_end_later cur month_end v n) in
    elim (Bool-cases (Date.before cur end)) [
      | inr done ↦
          let ge = not_before-day_number cur end v w done in
          rw done (day_number-injective cur end v w (omega arith))
      | inl more ↦ elim (Bool-cases (Date.before end month_end)) [
        | inl last ↦
            let lt = before-day_number end month_end w n.is_date last in
            let e = months_from_past fuel month_end end n.is_date w (omega arith) in
            rw (more, last, e)
              (
                record {
                  starts = refl;
                  non_empty = more;
                  one_month = part_of_month cur month_end end v w n last;
                  whole = inl refl;
                },
                refl,
              )
        | inr within ↦
            let ge = not_before-day_number end month_end w n.is_date within in
            rw (more, within)
              (
                record {
                  starts = refl;
                  non_empty = month_end_later cur month_end v n;
                  one_month = whole_month cur month_end v n;
                  whole = inr n.first;
                },
                months_from-Tiles fuel month_end end n.is_date w ge (omega arith),
              )
      ]
    ]

-- Segments tile a window that is not empty: each is in one month, and they follow on each other
-- from the start to the end.
pub months_in_window-Tiles :
    (start end : Date)
    → IsDate start
    → IsDate end
    → Date.before start end ≡ true
    → Tiles start end (months_in_window start end)
unfolding months_in_window
months_in_window-Tiles start end v w h =
    let lt = before-day_number start end v w h in
    rw h (months_from-Tiles (day_number end) start end v w (omega arith) (omega arith))
