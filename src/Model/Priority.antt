-- ===== src/Model/Priority.antt =====
-- model/model.go: Priority. A text that names no priority is `unknown`.
use agentboard.Prelude.{
  ℕ, Bool, true, false, ◌≡◌, ◌↔◌, refl, arith, if◌then◌else◌, Str, runes, str_eq, str_eq_iff,
}

pub data Priority : Type 0 where
  low medium high urgent : Priority
  unknown : Str → Priority

unfoldable pub valid : Priority → Bool
valid (unknown s) = false
valid _ = true

-- `string(p)`
unfoldable pub text : Priority → Str
text low = runes "low"
text medium = runes "medium"
text high = runes "high"
text urgent = runes "urgent"
text (unknown s) = s

-- `Priority(s)`
unfoldable pub of_text : Str → Priority
unfolding str_eq
of_text s =
    if str_eq s (runes "low")
    then low
    else if str_eq s (runes "medium")
    then medium
    else if str_eq s (runes "high")
    then high
    else if str_eq s (runes "urgent")
    then urgent
    else unknown s

pub of_text-text : (p : Priority) → valid p ≡ true → of_text (text p) ≡ p
unfolding of_text text valid
of_text-text low h = refl
of_text-text medium h = refl
of_text-text high h = refl
of_text-text urgent h = refl
of_text-text (unknown s) h = cc

unfoldable pub rank : Priority → ℕ
rank low = 0
rank medium = 1
rank high = 2
rank urgent = 3
rank (unknown s) = 0

unfoldable pub eq : Priority → Priority → Bool
eq low low = true
eq medium medium = true
eq high high = true
eq urgent urgent = true
eq (unknown a) (unknown b) = str_eq a b
eq _ _ = false

pub eq_iff : (a b : Priority) → (eq a b ≡ true) ↔ (a ≡ b)
unfolding eq
eq_iff (unknown a) (unknown b) = ground (arith, str_eq_iff a b)
eq_iff a b = ground arith
