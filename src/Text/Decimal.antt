-- ===== src/Text/Decimal.antt =====
-- `%d` of fmt and strconv.Atoi; a value that Atoi refuses reads as 0, which is what `v, _ :=` keeps.
-- Integers are unbounded here.
use agentboard.Prelude.{
  ℕ, zero, suc, ◌+◌, ◌-◌, ◌*◌, ◌/◌, ◌%◌, ◌<◌, ◌≡◌, true, Option, none, some, [], ◌∷◌, ◌++◌, arith,
  ltb, ◌==◌, if◌then◌else◌, Str,
}
use agentboard.Prelude.Int.{ℤ, pos, neg_ℕ}
use agentboard.Text.{is_digit}

decimal_fuel : ℕ → ℕ → Str
decimal_fuel zero n = []
decimal_fuel (suc f) n =
    let rest = decimal_fuel f (n / 10) in
    if ltb n 10 then (48 + n) ∷ [] else rest ++ ((48 + n % 10) ∷ [])

-- `fmt.Sprintf("%d", n)`
unfoldable pub decimal : ℕ → Str
unfolding decimal_fuel
decimal n = decimal_fuel (suc n) n

parse_digits : ℕ → Str → Option ℕ
parse_digits acc [] = some acc
parse_digits acc (c ∷ s) =
    let rest = parse_digits (acc * 10 + (c - 48)) s in if is_digit c then rest else none

abbrev signed : (ℕ → ℤ) → Option ℕ → ℤ
signed sign none = pos 0
signed sign (some n) = sign n

abbrev unsigned_digits : Str → Option ℕ
unsigned_digits [] = none
unsigned_digits (c ∷ s) = unfold parse_digits in parse_digits 0 (c ∷ s)

-- `v, _ := strconv.Atoi(s)`
unfoldable pub atoi : Str → ℤ
unfolding parse_digits
atoi [] = pos 0
atoi (c ∷ s) =
    if c == b'-'
    then signed neg_ℕ (unsigned_digits s)
    else if c == b'+'
    then signed pos (unsigned_digits s)
    else signed pos (parse_digits 0 (c ∷ s))

parse_digits-append :
    (xs ys : Str) (acc m : ℕ)
    → parse_digits acc xs ≡ some m
    → parse_digits acc (xs ++ ys) ≡ parse_digits m ys
unfolding parse_digits
parse_digits-append [] ys acc m h = ground arith
parse_digits-append (c ∷ xs) ys acc m h =
    ground (arith, parse_digits-append xs ys (acc * 10 + (c - 48)) m)

parse_digits-decimal_fuel : (f n : ℕ) → n < f → parse_digits 0 (decimal_fuel f n) ≡ some n
unfolding parse_digits decimal_fuel
parse_digits-decimal_fuel zero n h = elim h [ ]
parse_digits-decimal_fuel (suc f) n h = ground (
  arith,
  parse_digits-decimal_fuel f (n / 10),
  parse_digits-append (decimal_fuel f (n / 10)) ((48 + n % 10) ∷ []) 0 (n / 10),
)

abbrev HasDigitHead : Str → Type 0
HasDigitHead [] = ⊥
HasDigitHead (c ∷ s) = is_digit c ≡ true

HasDigitHead-append : (xs ys : Str) → HasDigitHead xs → HasDigitHead (xs ++ ys)
HasDigitHead-append [] ys h = absurd h
HasDigitHead-append (c ∷ xs) ys h = h

decimal_fuel-HasDigitHead : (f n : ℕ) → n < f → HasDigitHead (decimal_fuel f n)
unfolding decimal_fuel
decimal_fuel-HasDigitHead zero n h = elim h [ ]
decimal_fuel-HasDigitHead (suc f) n h = ground (
  arith,
  decimal_fuel-HasDigitHead f (n / 10),
  HasDigitHead-append (decimal_fuel f (n / 10)) ((48 + n % 10) ∷ []),
)

atoi_of_digits : (s : Str) (n : ℕ) → HasDigitHead s → parse_digits 0 s ≡ some n → atoi s ≡ pos n
unfolding atoi
atoi_of_digits [] n h e = absurd h
atoi_of_digits (c ∷ s) n h e = ground arith

-- Printing a number and reading it back gives the number.
pub atoi-decimal : (n : ℕ) → atoi (decimal n) ≡ pos n
unfolding decimal
atoi-decimal n =
    atoi_of_digits _ n (decimal_fuel-HasDigitHead (suc n) n (omega arith))
      (parse_digits-decimal_fuel (suc n) n (omega arith))
