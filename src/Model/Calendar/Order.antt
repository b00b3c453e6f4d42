-- ===== src/Model/Calendar/Order.antt =====
-- The order of dates is the order of their day numbers.
use agentboard.Prelude.{
  ℕ, zero, suc, ◌+◌, ◌-◌, ◌≤◌, ◌<◌, ◌≡◌, ◌⊎◌, refl, sym, ap, ◌∙◌, inl, inr, Bool, true, false,
  arith, ltb, ◌==◌, Bool-cases, ltb→lt,
}
use agentboard.Model.Date
use agentboard.Model.Date.{Date}
use agentboard.Model.Calendar.{
  days_before_year, days_in_year, days_before_month, day_number, date_of, day_number-date_of,
  days_before_year-suc, days_before_year_mono, days_before_month-suc, year_length, year_of_pos,
}

-- A date from year 1 on.
pub record IsDate (d : Date) : Type 0 where
  pub valid : Date.is_valid d ≡ true
  pub year_pos : 1 ≤ d.year

pub record Bounds (d : Date) : Type 0 where
  pub month_low : 1 ≤ d.month
  pub month_high : d.month ≤ 12
  pub day_low : 1 ≤ d.day
  pub day_high : d.day ≤ Date.days_in d.year d.month

pub bounds : (d : Date) → Date.is_valid d ≡ true → Bounds d
unfolding Date.is_valid
bounds d v = ground arith

days_before_month_mono : (y a k : ℕ) → 1 ≤ a → days_before_month y a ≤ days_before_month y (a + k)
days_before_month_mono y a zero h = let e : a + 0 ≡ a = omega arith in rw e (omega arith)
days_before_month_mono y a (suc k) h =
    let e : a + suc k ≡ (a + k) + 1 = omega arith in
    rw e (omega (arith, days_before_month_mono y a k h, days_before_month-suc y (a + k)))

-- The day of the year, from 0 on.
abbrev day_of_year : Date → ℕ
day_of_year d = days_before_month d.year d.month + (d.day - 1)

day_of_year-lt-month :
    (d : Date) (m : ℕ)
    → Date.is_valid d ≡ true
    → d.month < m
    → day_of_year d < days_before_month d.year m
day_of_year-lt-month d m v h =
    let b = bounds d v in
    let e : m ≡ d.month + 1 + (m - d.month - 1) = omega arith in
    omega (
      arith,
      b.day_high,
      b.day_low,
      days_before_month-suc d.year d.month b.month_low,
      days_before_month_mono d.year (d.month + 1) (m - d.month - 1),
      ap (days_before_month d.year) e,
    )

day_of_year-lt-year : (d : Date) → Date.is_valid d ≡ true → day_of_year d < days_in_year d.year
unfolding Date.days_in
day_of_year-lt-year d v =
    let b = bounds d v in
    let last : Date.days_in d.year 12 ≡ 31 = ground arith in
    omega (
      arith,
      b.month_high,
      day_of_year-lt-month d 13 v,
      days_before_month-suc d.year 12,
      year_length d.year,
      last,
    )

earlier :
    (a b : Date)
    → Date.before a b ≡ true
    → (a.year < b.year)
      ⊎ (((a.year ≡ b.year) × (a.month < b.month))
          ⊎ ((a.year ≡ b.year) × (a.month ≡ b.month) × (a.day < b.day)))
unfolding Date.before
earlier a b h = elim (Bool-cases (ltb a.year b.year)) [
  | inl y ↦ inl (ltb→lt a.year b.year y)
  | inr y ↦ elim (Bool-cases (ltb a.month b.month)) [
    | inl m ↦ inr (inl (ground arith, ltb→lt a.month b.month m))
    | inr m ↦ inr (inr (ground arith, ground arith, ground arith))
  ]
]

-- With the years' lengths shut.
shift :
    (a b : Date)
    → day_of_year a < days_in_year a.year
    → days_before_year (a.year + 1) ≡ days_before_year a.year + days_in_year a.year
    → days_before_year (a.year + 1) ≤ days_before_year b.year
    → days_before_year a.year + days_before_month a.year a.month + (a.day - 1)
      < days_before_year b.year + days_before_month b.year b.month + (b.day - 1)
shift a b whole next mono = omega arith

-- An earlier date has a smaller day number.
pub before-day_number :
    (a b : Date) → IsDate a → IsDate b → Date.before a b ≡ true → day_number a < day_number b
unfolding day_number
before-day_number a b va vb h = elim (earlier a b h) [
  | inl years ↦
      let whole = day_of_year-lt-year a va.valid in
      let next = days_before_year-suc a.year va.year_pos in
      let mono = days_before_year_mono (a.year + 1) b.year (omega arith) (omega arith) in
      shift a b whole next mono
  | inr (inl (e, months)) ↦
      let l = day_of_year-lt-month a b.month va.valid months in
      omega (arith, ap days_before_year e, ap (λ y. days_before_month y b.month) e)
  | inr (inr (e, m, days)) ↦
      let bb = bounds a va.valid in
      let low = bb.day_low in
      omega (
        arith,
        ap days_before_year e,
        ap (λ y. days_before_month y b.month) e,
        ap (days_before_month a.year) m,
      )
]

-- Of two dates of the calendar, neither of which is before the other, both are the same.
before_total : (a b : Date) → Date.before a b ≡ false → Date.before b a ≡ false → a ≡ b
unfolding Date.before
before_total a b h k = ground arith

-- `before` compares the day numbers.
pub before_iff :
    (a b : Date) → IsDate a → IsDate b → Date.before a b ≡ ltb (day_number a) (day_number b)
before_iff a b va vb = elim (Bool-cases (Date.before a b)) [
  | inl lt ↦ let l = before-day_number a b va vb lt in rw lt (ground arith)
  | inr ge ↦ elim (Bool-cases (Date.before b a)) [
    | inl gt ↦ let l = before-day_number b a vb va gt in rw ge (ground arith)
    | inr le ↦ let e = ap day_number (before_total a b ge le) in rw ge (ground arith)
  ]
]

pub not_before-day_number :
    (a b : Date) → IsDate a → IsDate b → Date.before a b ≡ false → day_number b ≤ day_number a
not_before-day_number a b va vb h =
    let e = before_iff a b va vb in leb_of (day_number a) (day_number b) (sym e ∙ h)
  where
    leb_of : (m n : ℕ) → ltb m n ≡ false → n ≤ m
    leb_of m n h = ground arith

pub lt-before :
    (a b : Date) → IsDate a → IsDate b → day_number a < day_number b → Date.before a b ≡ true
lt-before a b va vb h = before_iff a b va vb ∙ ltb_of (day_number a) (day_number b) h
  where
    ltb_of : (m n : ℕ) → m < n → ltb m n ≡ true
    ltb_of m n h = ground arith

-- Two dates with one day number are the same.
pub day_number-injective : (a b : Date) → IsDate a → IsDate b → day_number a ≡ day_number b → a ≡ b
day_number-injective a b va vb e =
    let ab = before_iff a b va vb in
    let ba = before_iff b a vb va in before_total a b (ground arith) (ground arith)

pub date_of-IsDate : (n : ℕ) → IsDate (date_of n)
unfolding date_of
date_of-IsDate n = record { valid = (day_number-date_of n).1; year_pos = year_of_pos n }

-- The date of a date's day number is the date.
pub date_of-day_number : (d : Date) → IsDate d → date_of (day_number d) ≡ d
date_of-day_number d v =
    day_number-injective (date_of (day_number d)) d (date_of-IsDate (day_number d)) v
      (day_number-date_of (day_number d)).0

-- `equal` compares the day numbers.
pub equal_day : (a b : Date) → IsDate a → IsDate b → Date.equal a b ≡ (day_number a == day_number b)
unfolding Date.equal
equal_day a b va vb = elim (Bool-cases (day_number a == day_number b)) [
  | inl same ↦
      let e = day_number-injective a b va vb (ground arith) in
      ap (Date.equal a) (sym e) ∙ equal_refl a ∙ sym same
  | inr differ ↦
      rw differ (no_equal (Date.equal a b) (λ h. differ_dates differ (Date.equal_sound a b h)))
]
  where
    equal_refl : (a : Date) → Date.equal a a ≡ true
    equal_refl a = ground arith

    differ_dates : {a b : Date} → (day_number a == day_number b) ≡ false → a ≡ b → ⊥
    differ_dates {a} {b} h e = let k = ap day_number e in ne_of (day_number a) (day_number b) h k
      where
        ne_of : (m n : ℕ) → (m == n) ≡ false → m ≡ n → ⊥
        ne_of m n h k = ground arith

    no_equal : (t : Bool) → (t ≡ true → ⊥) → t ≡ false
    no_equal true h = absurd (h refl)
    no_equal false h = refl
