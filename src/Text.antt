-- ===== src/Text.antt =====
-- What the board uses of Go's strings, strconv and regexp packages, over lists of runes.
-- `ToLower` is modelled on ASCII letters; other runes are left as they are.
pub mod Decimal
pub mod Hex
pub mod TaskId
use agentboard.Prelude.{
  ℕ, ◌+◌, ◌-◌, ◌≤◌, Bool, true, false, ◌&&◌, ◌||◌, not, List, [], ◌∷◌, ◌++◌, map, reverse, ltb, leb,
  ◌==◌, if◌then◌else◌, every, length, is_empty, Str, take, str_eq,
}

-- unicode.IsSpace
unfoldable pub is_space : ℕ → Bool
is_space c =
    (leb 9 c && leb c 13)
    || (c == 32)
    || (c == 133)
    || (c == 160)
    || (c == 5760)
    || (leb 8192 c && leb c 8202)
    || (c == 8232)
    || (c == 8233)
    || (c == 8239)
    || (c == 8287)
    || (c == 12288)

unfoldable pub trim_left : Str → Str
unfolding is_space
trim_left [] = []
trim_left (c ∷ s) = if is_space c then trim_left s else c ∷ s

-- strings.TrimSpace
unfoldable pub trim_space : Str → Str
unfolding trim_left
trim_space s = reverse (trim_left (reverse (trim_left s)))

abbrev pub is_upper : ℕ → Bool
is_upper c = leb b'A' c && leb c b'Z'

abbrev pub is_lower : ℕ → Bool
is_lower c = leb b'a' c && leb c b'z'

abbrev pub is_digit : ℕ → Bool
is_digit c = leb b'0' c && leb c b'9'

abbrev pub is_alnum : ℕ → Bool
is_alnum c = is_upper c || is_lower c || is_digit c

abbrev pub lower_rune : ℕ → ℕ
lower_rune c = if is_upper c then c + 32 else c

-- strings.ToLower
unfoldable pub to_lower : Str → Str
to_lower s = map lower_rune s

-- Bytes of a rune in UTF-8.
abbrev rune_len : ℕ → ℕ
rune_len c = if ltb c 128 then 1 else if ltb c 2048 then 2 else if ltb c 65536 then 3 else 4

-- `len(s)`
unfoldable pub byte_len : Str → ℕ
byte_len [] = 0
byte_len (c ∷ s) = rune_len c + byte_len s

-- strings.HasPrefix, with the prefix first
unfoldable pub has_prefix : Str → Str → Bool
has_prefix [] s = true
has_prefix (c ∷ p) [] = false
has_prefix (c ∷ p) (d ∷ s) = (c == d) && has_prefix p s

-- strings.Contains(s, sub)
unfoldable pub contains : Str → Str → Bool
unfolding has_prefix
contains [] sub = is_empty sub
contains (c ∷ s) sub = has_prefix sub (c ∷ s) || contains s sub

-- strings.Cut(s, sep) for a separator of one rune: what stands before it, and behind it.
unfoldable pub cut : ℕ → Str → Str × Str
cut sep [] = ([], [])
cut sep (c ∷ s) = let rest = cut sep s in if c == sep then ([], s) else (c ∷ rest.0, rest.1)

-- `^[A-Z][A-Z0-9]{1,9}$`
unfoldable pub key_re : Str → Bool
key_re [] = false
key_re (c ∷ s) =
    is_upper c && leb 1 (length s) && leb (length s) 9 && every (λ d. is_upper d || is_digit d) s

abbrev is_name_rune : ℕ → Bool
is_name_rune c = is_alnum c || (c == b'.') || (c == b'_') || (c == b'-')

-- `^[A-Za-z0-9][A-Za-z0-9._-]{0,63}$`
unfoldable pub name_re : Str → Bool
name_re [] = false
name_re (c ∷ s) = is_alnum c && leb (length s) 63 && every is_name_rune s

abbrev is_label_rune : ℕ → Bool
is_label_rune c =
    is_lower c || is_digit c || (c == b'.') || (c == b'_') || (c == b':') || (c == b'-')

-- `^[a-z0-9][a-z0-9._:-]{0,31}$`
unfoldable pub label_re : Str → Bool
label_re [] = false
label_re (c ∷ s) = (is_lower c || is_digit c) && leb (length s) 31 && every is_label_rune s
