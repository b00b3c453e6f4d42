-- ===== src/Model/Date.antt =====
-- model/date.go: calendar dates, and the reading of "YYYY-MM-DD".
use agentboard.Prelude.{
  ℕ, ◌+◌, ◌-◌, ◌*◌, ◌/◌, ◌%◌, ◌≤◌, ◌<◌, ◌≡◌, refl, Bool, true, false, not, ◌&&◌, ◌||◌, Option, none,
  some, [], ◌∷◌, arith, ltb, leb, ◌==◌, if◌then◌else◌, Str, is_empty,
}
use agentboard.Text.{is_digit}

pub record Date : Type 0 where
  pub year : ℕ
  pub month : ℕ
  pub day : ℕ

unfoldable pub before : Date → Date → Bool
before d o =
    ltb d.year o.year
    || ((d.year == o.year) && (ltb d.month o.month || ((d.month == o.month) && ltb d.day o.day)))

-- `a.Equal(b.Time)`, as datePtrEqual has it
unfoldable pub equal : Date → Date → Bool
equal d o = (d.year == o.year) && (d.month == o.month) && (d.day == o.day)

pub equal_sound : (d o : Date) → equal d o ≡ true → d ≡ o
unfolding equal
equal_sound d o h = ground arith

unfoldable pub is_leap : ℕ → Bool
is_leap y = (y % 4 == 0) && (not (y % 100 == 0) || (y % 400 == 0))

unfoldable pub days_in : ℕ → ℕ → ℕ
unfolding is_leap
days_in y m =
    let short = (m == 11) || (m == 9) || (m == 6) || (m == 4) in
    if short then 30 else if m == 2 then (if is_leap y then 29 else 28) else 31

abbrev two_digits : ℕ → ℕ → ℕ
two_digits a b = (a - 48) * 10 + (b - 48)

-- A date of the calendar.
unfoldable pub is_valid : Date → Bool
unfolding days_in
is_valid d = leb 1 d.month && leb d.month 12 && leb 1 d.day && leb d.day (days_in d.year d.month)

-- Whether ten runes read `dddd-dd-dd`.
has_layout : Str → Bool
has_layout (y1 ∷ y2 ∷ y3 ∷ y4 ∷ s1 ∷ m1 ∷ m2 ∷ s2 ∷ d1 ∷ d2 ∷ []) =
    is_digit y1
    && is_digit y2
    && is_digit y3
    && is_digit y4
    && (s1 == b'-')
    && is_digit m1
    && is_digit m2
    && (s2 == b'-')
    && is_digit d1
    && is_digit d2
has_layout _ = false

-- The numbers of a text with this layout.
read_fields : Str → Date
read_fields (y1 ∷ y2 ∷ y3 ∷ y4 ∷ s1 ∷ m1 ∷ m2 ∷ s2 ∷ d1 ∷ d2 ∷ []) = record {
  year = two_digits y1 y2 * 100 + two_digits y3 y4;
  month = two_digits m1 m2;
  day = two_digits d1 d2;
}
read_fields _ = record { year = 0; month = 0; day = 0 }

-- `time.Parse("2006-01-02", s)`
unfoldable pub parse_date : Str → Option Date
unfolding has_layout read_fields is_valid
parse_date s = if has_layout s && is_valid (read_fields s) then some (read_fields s) else none

abbrev digit : ℕ → ℕ
digit n = 48 + n % 10

-- `d.Format(dateLayout)`, for years of at most four digits.
unfoldable pub format : Date → Str
format d =
    digit (d.year / 1000)
    ∷ digit (d.year / 100)
    ∷ digit (d.year / 10)
    ∷ digit d.year
    ∷ b'-'
    ∷ digit (d.month / 10)
    ∷ digit d.month
    ∷ b'-'
    ∷ digit (d.day / 10)
    ∷ digit d.day
    ∷ []

format-has_layout : (d : Date) → has_layout (format d) ≡ true
unfolding has_layout format
format-has_layout d = ground arith

days_in-le : (y m : ℕ) → days_in y m ≤ 31
unfolding days_in
days_in-le y m = ground arith

is_valid_bounds : (d : Date) → is_valid d ≡ true → (d.month < 100) × (d.day < 100)
unfolding is_valid
is_valid_bounds d v = ground (arith, days_in-le d.year d.month)

read_fields-format :
    (d : Date) → d.year < 10000 → d.month < 100 → d.day < 100 → read_fields (format d) ≡ d
unfolding read_fields format
read_fields-format d y m n = ground arith

-- A valid date of a four-digit year, printed, reads back as the same date.
parse_date-format : (d : Date) → is_valid d ≡ true → d.year < 10000 → parse_date (format d) ≡ some d
unfolding parse_date
parse_date-format d v h =
    let (m, n) = is_valid_bounds d v in
    let e = read_fields-format d h m n in rw (format-has_layout d, e, v)

-- The zero time.Time.
abbrev pub zero_date : Date
zero_date = record { year = 1; month = 1; day = 1 }

unfoldable pub is_zero : Date → Bool
unfolding equal
is_zero d = equal d zero_date

-- `d.String()`
unfoldable pub text : Date → Str
unfolding is_zero
text d = if is_zero d then [] else format d

-- The text in the JSON string of a date, and the date that such a text is read as.
unfoldable pub marshal_json : Date → Str
unfolding text
marshal_json d = text d

unfoldable pub unmarshal_json : Str → Option Date
unfolding parse_date
unmarshal_json s = if is_empty s then some zero_date else parse_date s

format-full : (d : Date) → is_empty (format d) ≡ false
unfolding format
format-full d = refl

-- A valid date of a four-digit year survives its JSON text, the zero date, whose text is empty,
-- included.
pub unmarshal_json-marshal_json :
    (d : Date) → is_valid d ≡ true → d.year < 10000 → unmarshal_json (marshal_json d) ≡ some d
unfolding marshal_json unmarshal_json is_zero
unmarshal_json-marshal_json d v h =
    ground (arith, parse_date-format d v h, format-full d, equal_sound d zero_date)
