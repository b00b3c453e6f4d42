-- ===== src/Board/Inputs.antt =====
-- board.go: limits, and the checks of what a caller passes in (requireActor, normalizeLabels,
-- validateMeta), with the text of a duration (time.Duration.String).
use agentboard.Prelude.{
  ℕ, zero, suc, ◌+◌, ◌*◌, ◌/◌, ◌%◌, Bool, not, ◌||◌, List, [], ◌∷◌, ◌++◌, reverse, ltb, ◌==◌,
  if◌then◌else◌, length, any, is_empty, Str, runes, str_eq, Table, ◌≡◌, refl,
}
use agentboard.Text.{byte_len, trim_space, to_lower, name_re, label_re}
use agentboard.Text.Decimal.{decimal}
use agentboard.Board.Types.{Result, ok, err, invalid}

abbrev pub second : ℕ
second = 1_000_000_000

abbrev pub default_agent_ttl : ℕ
default_agent_ttl = 120 * second

abbrev pub default_lease : ℕ
default_lease = 600 * second

abbrev pub min_lease : ℕ
min_lease = second

abbrev pub max_lease : ℕ
max_lease = 86400 * second

abbrev pub snapshot_activity : ℕ
snapshot_activity = 100

abbrev pub max_title : ℕ
max_title = 200

abbrev pub max_description : ℕ
max_description = 20000

abbrev pub max_comment : ℕ
max_comment = 5000

abbrev pub max_labels : ℕ
max_labels = 10

abbrev pub max_kind : ℕ
max_kind = 32

abbrev pub max_meta_keys : ℕ
max_meta_keys = 16

abbrev pub max_meta_key : ℕ
max_meta_key = 32

abbrev pub max_meta_value : ℕ
max_meta_value = 256

abbrev pub subscriber_buf_size : ℕ
subscriber_buf_size = 16

abbrev pub system_actor : Str
system_actor = runes "system"

unfoldable pub require_actor : Str → Result Str
require_actor actor =
    if is_empty actor || str_eq actor system_actor || not (name_re actor)
    then err invalid
    else ok actor

-- The loop over the labels; `out` holds those kept, in order, and so is what `seen` has.
collect_labels : List Str → List Str → Result (List Str)
collect_labels [] out = ok out
collect_labels (l ∷ ls) out =
    let label = to_lower (trim_space l) in
    let skip = collect_labels ls out in
    let add = collect_labels ls (out ++ label ∷ []) in
    if is_empty label
    then skip
    else if not (label_re label)
    then err invalid
    else if any (str_eq label) out
    then skip
    else add

abbrev bounded_labels : Result (List Str) → Result (List Str)
bounded_labels (err e) = err e
bounded_labels (ok out) = if ltb max_labels (length out) then err invalid else ok out

unfoldable pub normalize_labels : List Str → Result (List Str)
unfolding collect_labels
normalize_labels ls = bounded_labels (collect_labels ls [])

abbrev bad_meta_entry : Str × Str → Bool
bad_meta_entry (k, v) =
    is_empty k || ltb max_meta_key (byte_len k) || ltb max_meta_value (byte_len v)

unfoldable pub validate_meta : Table Str → Result (Unit {0})
validate_meta m =
    if ltb max_meta_keys (length m)
    then err invalid
    else if any bad_meta_entry m
    then err invalid
    else ok tt

-- The last `k` digits of `n`, least significant first.
low_digits : ℕ → ℕ → Str
low_digits zero n = []
low_digits (suc k) n = (48 + n % 10) ∷ low_digits k (n / 10)

drop_zeros : Str → Str
drop_zeros [] = []
drop_zeros (c ∷ s) = if c == b'0' then drop_zeros s else c ∷ s

fraction : Str → Str
fraction [] = []
fraction (c ∷ s) = b'.' ∷ c ∷ s

-- `d.String()`, for durations of at least a second.
unfoldable pub duration_string : ℕ → Str
unfolding low_digits drop_zeros fraction
duration_string d =
    let seconds = d / second in
    let minutes = seconds / 60 in
    let hours = minutes / 60 in
    let last =
      decimal (seconds % 60)
      ++ (fraction (reverse (drop_zeros (low_digits 9 (d % second)))) ++ runes "s") in
    let mid = if ltb 0 minutes then decimal (minutes % 60) ++ (runes "m" ++ last) else last in
    if ltb 0 hours then decimal hours ++ (runes "h" ++ mid) else mid

ten_minutes_text : duration_string default_lease ≡ runes "10m0s"
unfolding duration_string decimal
ten_minutes_text = refl

odd_text : duration_string 5_400_250_000_000 ≡ runes "1h30m0.25s"
unfolding duration_string decimal
odd_text = refl
