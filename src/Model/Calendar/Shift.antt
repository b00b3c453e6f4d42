-- ===== src/Model/Calendar/Shift.antt =====
-- model/date.go: DateOf, NewDate, AddDays and AddMonths. Days before year 1 are not modelled: a shift
-- stops at 0001-01-01.
use agentboard.Prelude.{ℕ, suc, ◌+◌, ◌-◌, ◌*◌, ◌/◌, ◌%◌, ◌≤◌, ◌≡◌, refl, sym, ap, ◌∙◌, true, arith}
use agentboard.Prelude.Int.{
  ℤ, pos, negsuc, pos_part, neg_part, neg_ℕ, pos_part-neg_ℕ, neg_part-neg_ℕ,
}
use agentboard.Model.Data.{Time}
use agentboard.Model.Date
use agentboard.Model.Date.{Date}
use agentboard.Model.Calendar.{day_ns, day_number, date_of, day_number-date_of, days_before_month}
use agentboard.Model.Calendar.Order.{IsDate, date_of-IsDate, date_of-day_number}

unfoldable pub date_of_time : Time → Date
unfolding date_of
date_of_time t = date_of (t / day_ns)

-- For a month from 1 to 12 and a day of it.
abbrev pub new_date : ℕ → ℕ → ℕ → Date
new_date y m d = record { year = y; month = m; day = d }

-- `n + z`, or 0 if that is less
abbrev shifted : ℕ → ℤ → ℕ
shifted n z = n + pos_part z - neg_part z

-- `d.AddDate(0, 0, n)`
unfoldable pub add_days : ℤ → Date → Date
unfolding day_number date_of
add_days n d = date_of (shifted (day_number d) n)

-- The months from year 0 on.
abbrev pub month_index : Date → ℕ
month_index d = 12 * d.year + (d.month - 1)

-- `d.AddDate(0, n, 0)`: a day that the month does not have runs over into the next.
unfoldable pub add_months : ℤ → Date → Date
unfolding day_number date_of
add_months n d =
    let m = shifted (month_index d) n in
    date_of (day_number (new_date (m / 12) (m % 12 + 1) 1) + (d.day - 1))

jan_31 : add_months (pos 1) (new_date 2023 1 31) ≡ new_date 2023 3 3
unfolding add_months Date.days_in days_before_month
jan_31 = refl

-- Days later, the day number is as much larger.
pub day_number-add_days : (n : ℤ) (d : Date) → day_number (add_days n d) ≡ shifted (day_number d) n
unfolding add_days
day_number-add_days n d = (day_number-date_of (shifted (day_number d) n)).0

pub day_number-back : (n : ℕ) (d : Date) → day_number (add_days (neg_ℕ n) d) ≡ day_number d - n
day_number-back n d =
    omega (arith, day_number-add_days (neg_ℕ n) d, pos_part-neg_ℕ n, neg_part-neg_ℕ n)

pub add_days-IsDate : (n : ℤ) (d : Date) → IsDate (add_days n d)
unfolding add_days
add_days-IsDate n d = date_of-IsDate (shifted (day_number d) n)

pub add_months-IsDate : (n : ℤ) (d : Date) → IsDate (add_months n d)
unfolding add_months
add_months-IsDate n d =
    let m = shifted (month_index d) n in
    date_of-IsDate (day_number (new_date (m / 12) (m % 12 + 1) 1) + (d.day - 1))

-- Adding days and then as many more is adding them at once, and going back undoes it.
pub add_days-add_days :
    (m n : ℕ) (d : Date)
    → IsDate d
    → (add_days (pos n) (add_days (pos m) d) ≡ add_days (pos (m + n)) d)
      × (add_days (negsuc m) (add_days (pos (suc m)) d) ≡ d)
add_days-add_days m n d v = (
  add_days_at (pos n) (add_days (pos m) d)
      ∙ ap date_of (omega (arith, day_number-add_days (pos m) d))
      ∙ sym (add_days_at (pos (m + n)) d),
  add_days_at (negsuc m) (add_days (pos (suc m)) d)
      ∙ ap date_of (omega (arith, day_number-add_days (pos (suc m)) d))
      ∙ date_of-day_number d v,
)
  where
    add_days_at : (z : ℤ) (e : Date) → add_days z e ≡ date_of (shifted (day_number e) z)
    add_days_at z e = unfold add_days in refl

-- The first 28 days are in every month.
early_day : (y m d : ℕ) → 1 ≤ m → m ≤ 12 → 1 ≤ d → d ≤ 28 → Date.is_valid (new_date y m d) ≡ true
unfolding Date.is_valid Date.days_in
early_day y m d a b c e = ground arith

-- A day up to the 28th keeps its day, and its month moves by as many months.
pub add_months_lem :
    (n : ℤ) (d : Date)
    → 1 ≤ d.day
    → d.day ≤ 28
    → 12 ≤ shifted (month_index d) n
    → (month_index (add_months n d) ≡ shifted (month_index d) n) × ((add_months n d).day ≡ d.day)
add_months_lem n d low high late =
    let m = shifted (month_index d) n in
    let target = new_date (m / 12) (m % 12 + 1) d.day in
    let v : IsDate target = record {
      valid = early_day (m / 12) (m % 12 + 1) d.day (omega arith) (omega arith) low high;
      year_pos = omega arith;
    } in
    let e : add_months n d ≡ target =
      add_months_at n d
      ∙ ap date_of (same_month (m / 12) (m % 12 + 1) d.day low)
      ∙ date_of-day_number target v in
    (ap (λ (u : Date). month_index u) e ∙ omega arith, ap (λ (u : Date). u.day) e)
  where
    add_months_at :
        (n : ℤ) (d : Date)
        → let m = shifted (month_index d) n in
          add_months n d ≡ date_of (day_number (new_date (m / 12) (m % 12 + 1) 1) + (d.day - 1))
    add_months_at n d = unfold add_months in refl

    same_month :
        (y m k : ℕ) → 1 ≤ k → day_number (new_date y m 1) + (k - 1) ≡ day_number (new_date y m k)
    same_month y m k h = unfold day_number in omega arith
