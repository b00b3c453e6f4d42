-- ===== src/Model/Kind.antt =====
-- model/model.go: Kind, the level of a task in the hierarchy. Any other text is `unknown`.
use agentboard.Prelude.{
  ℕ, Bool, true, false, ◌≡◌, ◌↔◌, refl, arith, if◌then◌else◌, Str, runes, str_eq, str_eq_iff,
}

pub data Kind : Type 0 where
  epic story task : Kind
  unknown : Str → Kind

unfoldable pub valid : Kind → Bool
valid (unknown s) = false
valid _ = true

-- `string(k)`
unfoldable pub text : Kind → Str
text epic = runes "epic"
text story = runes "story"
text task = runes "task"
text (unknown s) = s

-- `Kind(s)`
unfoldable pub of_text : Str → Kind
unfolding str_eq
of_text s =
    if str_eq s (runes "epic")
    then epic
    else if str_eq s (runes "story")
    then story
    else if str_eq s (runes "task")
    then task
    else unknown s

pub of_text-text : (k : Kind) → valid k ≡ true → of_text (text k) ≡ k
unfolding of_text text valid
of_text-text epic h = refl
of_text-text story h = refl
of_text-text task h = refl
of_text-text (unknown s) h = cc

unfoldable pub level : Kind → ℕ
level epic = 0
level story = 1
level task = 2
level (unknown s) = 2

unfoldable pub eq : Kind → Kind → Bool
eq epic epic = true
eq story story = true
eq task task = true
eq (unknown a) (unknown b) = str_eq a b
eq _ _ = false

pub eq_iff : (a b : Kind) → (eq a b ≡ true) ↔ (a ≡ b)
unfolding eq
eq_iff (unknown a) (unknown b) = ground (arith, str_eq_iff a b)
eq_iff a b = ground arith
