-- ===== src/Model/Calendar.antt =====
-- The calendar under package time: days numbered from 0001-01-01, which is day 0.
pub mod Order
pub mod Shift
use agentboard.Prelude.{
  ℕ, zero, suc, ◌+◌, ◌-◌, ◌*◌, ◌/◌, ◌%◌, ◌≤◌, ◌<◌, min, ◌≡◌, refl, sym, ap, subst, ltb→lt, ◌∙◌,
  Bool, true, false, not, ◌&&◌, ◌||◌, arith, ltb, leb, ◌==◌, if◌then◌else◌, Bool-cases, inl, inr,
}
use agentboard.Model.Date
use agentboard.Model.Date.{Date}

abbrev pub day_ns : ℕ
day_ns = 86_400_000_000_000

-- The days before a year from 1 on.
unfoldable pub days_before_year : ℕ → ℕ
days_before_year y = let p = y - 1 in 365 * p + p / 4 - p / 100 + p / 400

unfoldable pub days_in_year : ℕ → ℕ
unfolding Date.is_leap
days_in_year y = if Date.is_leap y then 366 else 365

-- The days of the year before a month.
unfoldable pub days_before_month : ℕ → ℕ → ℕ
days_before_month y zero = 0
days_before_month y (suc zero) = 0
days_before_month y (suc (suc m)) = days_before_month y (suc m) + Date.days_in y (suc m)

unfoldable pub day_number : Date → ℕ
unfolding days_before_year days_before_month
day_number d = days_before_year d.year + days_before_month d.year d.month + (d.day - 1)

-- The year of a day: by cycles of 400, 100, 4 and 1 years.
unfoldable pub year_of : ℕ → ℕ
year_of n =
    let r400 = n % 146097 in
    let n100 = min (r400 / 36524) 3 in
    let r100 = r400 - n100 * 36524 in
    let r4 = r100 % 1461 in
    400 * (n / 146097) + 100 * n100 + 4 * (r100 / 1461) + min (r4 / 365) 3 + 1

pub days_before_year-suc :
    (y : ℕ) → 1 ≤ y → days_before_year (y + 1) ≡ days_before_year y + days_in_year y
unfolding days_before_year days_in_year Date.is_leap
days_before_year-suc y h = ground arith

year_of_bounds :
    (n : ℕ) → (days_before_year (year_of n) ≤ n) × (n < days_before_year (year_of n + 1))
unfolding days_before_year year_of
year_of_bounds n = ground arith

pub days_before_year_mono : (a b : ℕ) → 1 ≤ a → a ≤ b → days_before_year a ≤ days_before_year b
unfolding days_before_year
days_before_year_mono a b h le = omega arith

-- The month of a day of the year, and the day of that month: `left` months from `m` on.
unfoldable pub find_month : ℕ → ℕ → ℕ → ℕ → ℕ × ℕ
find_month y zero m n = (m, n + 1)
find_month y (suc left) m n =
    let rest = find_month y left (m + 1) (n - Date.days_in y m) in
    if ltb n (Date.days_in y m) then (m, n + 1) else rest

-- time.Date with days out of range, or t.Date(): the date of a day.
unfoldable pub date_of : ℕ → Date
unfolding year_of find_month days_before_year
date_of n =
    let y = year_of n in
    let (m, d) = find_month y 11 1 (n - days_before_year y) in
    record { year = y; month = m; day = d }

epoch : date_of 0 ≡ record { year = 1; month = 1; day = 1 }
unfolding date_of Date.days_in
epoch = refl

leap_day :
    date_of (day_number (record { year = 2024; month = 2; day = 29 }))
    ≡ record { year = 2024; month = 2; day = 29 }
unfolding date_of day_number Date.days_in
leap_day = refl

pub days_before_month-suc :
    (y m : ℕ) → 1 ≤ m → days_before_month y (m + 1) ≡ days_before_month y m + Date.days_in y m
unfolding days_before_month
days_before_month-suc y zero h = absurd (omega arith)
days_before_month-suc y (suc m) h = let e : suc m + 1 ≡ suc (suc m) = omega arith in rw e refl

-- A date of year y with the day of the year n.
record IsDayOf (y n : ℕ) (r : ℕ × ℕ) : Type 0 where
  valid : Date.is_valid (record { year = y; month = r.0; day = r.1 }) ≡ true
  day_is : days_before_month y r.0 + (r.1 - 1) ≡ n

pub year_length : (y : ℕ) → days_before_month y 12 + 31 ≡ days_in_year y
unfolding days_before_month days_in_year Date.days_in
year_length y = ground arith

january : (y : ℕ) → days_before_month y 1 ≡ 0
unfolding days_before_month
january y = refl

within :
    (y m n : ℕ)
    → 1 ≤ m
    → m ≤ 12
    → n < Date.days_in y m
    → Date.is_valid (record { year = y; month = m; day = n + 1 }) ≡ true
unfolding Date.is_valid
within y m n low high h = ground arith

december : (y n : ℕ) → n < 31 → Date.is_valid (record { year = y; month = 12; day = n + 1 }) ≡ true
unfolding Date.is_valid Date.days_in
december y n h = ground arith

find_month-IsDayOf :
    (y left m n : ℕ)
    → m + left ≡ 12
    → 1 ≤ m
    → days_before_month y m + n < days_in_year y
    → IsDayOf y (days_before_month y m + n) (find_month y left m n)
unfolding find_month
find_month-IsDayOf y zero m n e low fits =
    let m12 : m ≡ 12 = omega arith in
    let short : n < 31 = omega (arith, year_length y, ap (days_before_month y) m12) in
    record { valid = rw m12 (december y n short); day_is = omega arith }
find_month-IsDayOf y (suc left) m n e low fits = elim (Bool-cases (ltb n (Date.days_in y m))) [
  | inl here ↦
      rw here
        (record { valid = within y m n low (omega arith) (ltb→lt n _ here); day_is = omega arith })
  | inr later ↦
      let past : Date.days_in y m ≤ n = ground arith in
      let next = days_before_month-suc y m low in
      let same : days_before_month y (m + 1) + (n - Date.days_in y m) ≡ days_before_month y m + n =
        omega arith in
      rw later (
        subst (λ k. IsDayOf y k (find_month y left (m + 1) (n - Date.days_in y m))) same
          (find_month-IsDayOf y left (m + 1) (n - Date.days_in y m) (omega arith) (omega arith)
            (omega arith)))
]

pub year_of_pos : (n : ℕ) → 1 ≤ year_of n
unfolding year_of
year_of_pos n = omega arith

date_of-IsDayOf :
    (n : ℕ)
    → IsDayOf
        (year_of n)
        (n - days_before_year (year_of n))
        (find_month (year_of n) 11 1 (n - days_before_year (year_of n)))
date_of-IsDayOf n =
    let b = year_of_bounds n in
    let first : days_before_month (year_of n) 1 ≡ 0 = january (year_of n) in
    let r =
      find_month-IsDayOf (year_of n) 11 1 (n - days_before_year (year_of n)) (omega arith)
        (omega arith) (omega (arith, days_before_year-suc (year_of n) (year_of_pos n))) in
    subst
      (λ k. IsDayOf (year_of n) k (find_month (year_of n) 11 1 (n - days_before_year (year_of n))))
      (omega arith) r

-- The date of a day is a date of the calendar, and has that day's number.
pub day_number-date_of : (n : ℕ) → (day_number (date_of n) ≡ n) × (Date.is_valid (date_of n) ≡ true)
unfolding day_number date_of
day_number-date_of n =
    let r = date_of-IsDayOf n in let b = year_of_bounds n in (omega (arith, r.day_is), r.valid)
