-- ===== src/Text/TaskId.antt =====
-- Task ids `<key>-<n>` (board.go: AddTask, splitID, idLess).
use agentboard.Prelude.{
  false, ltb, str_eq_iff, str_lt_asym, ℕ, ◌≡◌, refl, ap, sym, ◌∙◌, Bool, true, ◌||◌, not, [], ◌∷◌,
  ◌++◌, arith, ◌==◌, if◌then◌else◌, Str, str_eq, str_lt, every,
}
use agentboard.Prelude.Int.{ℤ, pos, ltb_ℤ}
use agentboard.Text.{cut, key_re, is_upper, is_digit}
use agentboard.Text.Decimal.{decimal, atoi, atoi-decimal}

-- `fmt.Sprintf("%s-%d", p.Key, p.NextSeq)`
unfoldable pub task_id : Str → ℕ → Str
task_id key n = key ++ b'-' ∷ decimal n

unfoldable pub split_id : Str → Str × ℤ
split_id id = let (p, n) = cut b'-' id in (p, atoi n)

unfoldable pub id_less : Str → Str → Bool
unfolding split_id
id_less a b =
    let (pa, na) = split_id a in
    let (pb, nb) = split_id b in if not (str_eq pa pb) then str_lt pa pb else ltb_ℤ na nb

abbrev lacks_dash : Str → Bool
lacks_dash s = every (λ c. not (c == b'-')) s

cut-append : (key r : Str) → lacks_dash key ≡ true → cut b'-' (key ++ b'-' ∷ r) ≡ (key, r)
unfolding cut
cut-append [] r h = refl
cut-append (c ∷ key) r h = ground (arith, cut-append key r)

upper_digits-lacks_dash :
    (s : Str) → every (λ d. is_upper d || is_digit d) s ≡ true → lacks_dash s ≡ true
upper_digits-lacks_dash [] h = refl
upper_digits-lacks_dash (c ∷ s) h = ground (arith, upper_digits-lacks_dash s)

key_re-lacks_dash : (key : Str) → key_re key ≡ true → lacks_dash key ≡ true
unfolding key_re
key_re-lacks_dash [] h = refl
key_re-lacks_dash (c ∷ s) h = ground (arith, upper_digits-lacks_dash s)

-- The id that AddTask makes for a valid key splits back into the key and the sequence number.
pub split_id-task_id :
    (key : Str) (n : ℕ) → key_re key ≡ true → split_id (task_id key n) ≡ (key, pos n)
unfolding split_id task_id
split_id-task_id key n h = rw (cut-append key (decimal n) (key_re-lacks_dash key h), atoi-decimal n)

pos-injective : {m n : ℕ} → pos m ≡ pos n → m ≡ n
pos-injective e = cc

-- Two ids made of valid keys are the same only for the same key and number.
pub task_id-injective :
    (k l : Str) (m n : ℕ)
    → key_re k ≡ true
    → key_re l ≡ true
    → task_id k m ≡ task_id l n
    → (k ≡ l) × (m ≡ n)
task_id-injective k l m n hk hl e =
    let p = sym (split_id-task_id k m hk) ∙ ap split_id e ∙ split_id-task_id l n hl in
    (ap (λ x. x.0) p, pos-injective (ap (λ x. x.1) p))

ltb_ℤ_asym : (a b : ℤ) → ltb_ℤ a b ≡ true → ltb_ℤ b a ≡ false
ltb_ℤ_asym a b h = ground arith

pub id_less_asym : (a b : Str) → id_less a b ≡ true → id_less b a ≡ false
unfolding id_less
id_less_asym a b h = ground (
  arith,
  str_eq_iff (split_id a).0 (split_id b).0,
  str_eq_iff (split_id b).0 (split_id a).0,
  str_lt_asym (split_id a).0 (split_id b).0,
)

-- The keys are compared as texts, and within one key the numbers as numbers.
pub id_less-task_id :
    (k l : Str) (m n : ℕ)
    → key_re k ≡ true
    → key_re l ≡ true
    → id_less (task_id k m) (task_id l n) ≡ (if str_eq k l then ltb m n else str_lt k l)
unfolding id_less
id_less-task_id k l m n hk hl = ground (arith, split_id-task_id k m hk, split_id-task_id l n hl)
