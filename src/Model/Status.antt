-- ===== src/Model/Status.antt =====
-- model/model.go: Status. A text that names no status is `unknown`.
use agentboard.Prelude.{
  Bool, true, false, ◌≡◌, ◌↔◌, refl, arith, if◌then◌else◌, Str, runes, str_eq, str_eq_iff,
}

pub data Status : Type 0 where
  todo in_progress review done blocked : Status
  unknown : Str → Status

unfoldable pub valid : Status → Bool
valid (unknown s) = false
valid _ = true

-- `string(s)`
unfoldable pub text : Status → Str
text todo = runes "todo"
text in_progress = runes "in_progress"
text review = runes "review"
text done = runes "done"
text blocked = runes "blocked"
text (unknown s) = s

-- `Status(s)`
unfoldable pub of_text : Str → Status
unfolding str_eq
of_text s =
    if str_eq s (runes "todo")
    then todo
    else if str_eq s (runes "in_progress")
    then in_progress
    else if str_eq s (runes "review")
    then review
    else if str_eq s (runes "done")
    then done
    else if str_eq s (runes "blocked")
    then blocked
    else unknown s

pub of_text-text : (s : Status) → valid s ≡ true → of_text (text s) ≡ s
unfolding of_text text valid
of_text-text todo h = refl
of_text-text in_progress h = refl
of_text-text review h = refl
of_text-text done h = refl
of_text-text blocked h = refl
of_text-text (unknown s) h = cc

unfoldable pub label : Status → Str
label todo = runes "To do"
label in_progress = runes "In progress"
label review = runes "Review"
label done = runes "Done"
label blocked = runes "Blocked"
label (unknown s) = s

-- `a == b`
unfoldable pub eq : Status → Status → Bool
eq todo todo = true
eq in_progress in_progress = true
eq review review = true
eq done done = true
eq blocked blocked = true
eq (unknown a) (unknown b) = str_eq a b
eq _ _ = false

pub eq_iff : (a b : Status) → (eq a b ≡ true) ↔ (a ≡ b)
unfolding eq
eq_iff (unknown a) (unknown b) = ground (arith, str_eq_iff a b)
eq_iff a b = ground arith
