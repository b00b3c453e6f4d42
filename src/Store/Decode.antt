-- ===== src/Store/Decode.antt =====
-- store.go: DecodeState and DecodeFile.
use agentboard.Prelude.{
  ℕ, ◌+◌, ◌-◌, Bool, true, false, not, ◌&&◌, ◌||◌, Option, none, some, List, [], ◌∷◌, any, leb, ltb,
  ◌==◌, if◌then◌else◌, Str, runes, str_eq, length, take, drop,
}
use agentboard.Prelude.Int.{pos, ltb_ℤ}
use agentboard.Text.{has_prefix}
use agentboard.Password.{Bytes}
use agentboard.Model.Data.{State, schema_version, new_state}
use agentboard.Board.Types.{Result, ok, err, ◌>>=◌, ◌>>◌, refuse_if, invalid, corrupt, store_failed}
use agentboard.Store.Validate.{validate_state, migrate}
use agentboard.Store.Format.{
  Codec, file_magic, file_version, file_header_len, max_decompressed, get_be,
}

abbrev is_space1 : ℕ → Bool
is_space1 a = (leb 9 a && leb a 13) || (a == 32)

-- U+0085 and U+00A0 in UTF-8
abbrev is_space2 : ℕ → ℕ → Bool
is_space2 a b = (a == 0xc2) && ((b == 0x85) || (b == 0xa0))

-- U+1680, U+2000 to U+200A, U+2028, U+2029, U+202F, U+205F and U+3000 in UTF-8
abbrev is_space3 : ℕ → ℕ → ℕ → Bool
is_space3 a b c =
    ((a == 0xe1) && (b == 0x9a) && (c == 0x80))
    || ((a == 0xe2)
        && (((b == 0x80)
              && ((leb 0x80 c && leb c 0x8a) || (c == 0xa8) || (c == 0xa9) || (c == 0xaf)))
            || ((b == 0x81) && (c == 0x9f))))
    || ((a == 0xe3) && (b == 0x80) && (c == 0x80))

-- `len(bytes.TrimSpace(b)) == 0`
unfoldable pub is_blank : Bytes → Bool
is_blank [] = true
is_blank (a ∷ []) = is_space1 a
is_blank (a ∷ (b ∷ [])) = (is_space1 a && is_space1 b) || is_space2 a b
is_blank (a ∷ (b ∷ (c ∷ s))) =
    let after1 = is_blank (b ∷ (c ∷ s)) in
    let after2 = is_blank (c ∷ s) in
    let after3 = is_blank s in
    if is_space1 a then after1 else if is_space2 a b then after2 else is_space3 a b c && after3

-- The top-level fields of a State, of which a board file has at least one.
abbrev pub state_keys : List Str
state_keys =
    runes "version"
    ∷ runes "projects"
    ∷ runes "tasks"
    ∷ runes "agents"
    ∷ runes "users"
    ∷ runes "activity"
    ∷ runes "next_activity_id"
    ∷ runes "archived_through"
    ∷ []

abbrev has_state_key : List Str → Bool
has_state_key keys = any (λ key. any (str_eq key) keys) state_keys

-- An error of encoding/json carries no sentinel.
abbrev or_fails {ℓ} : {A : Type ℓ} → Option A → Result A
or_fails none = err store_failed
or_fails (some a) = ok a

unfoldable pub looks_like_board : Codec → Bytes → Result (Unit {0})
looks_like_board c b = do
  keys ← or_fails (c.top_keys b)
  refuse_if (not (has_state_key keys)) invalid

-- The versions that DecodeState accepts, brought up to date and checked. A nil map is an empty one.
unfoldable pub upgraded : State → Result State
upgraded st = do
  refuse_if (ltb_ℤ (pos schema_version) st.version) invalid
  refuse_if (ltb_ℤ st.version (pos 0)) invalid
  validate_state (migrate st)
  ok (migrate st)

unfoldable pub decode_state : Codec → Bytes → Result State
unfolding looks_like_board upgraded
decode_state c b =
    if is_blank b
    then ok new_state
    else do looks_like_board c b; st ← or_fails (c.unmarshal b); upgraded st

-- `fmt.Errorf("%w: %w", ErrCorrupt, err)`
abbrev as_corrupt {ℓ} : {A : Type ℓ} → Result A → Result A
as_corrupt (err e) = err corrupt
as_corrupt (ok a) = ok a

abbrev or_corrupt {ℓ} : {A : Type ℓ} → Option A → Result A
or_corrupt none = err corrupt
or_corrupt (some a) = ok a

-- What follows the header is a payload of the length that the header says, and its checksum.
unfoldable pub checked_payload : Codec → Bytes → Result Bytes
checked_payload c b = do
  let n = get_be 0 (take 8 (drop 5 b))
  refuse_if (not (n == length b - file_header_len - 4)) corrupt
  let payload = take n (drop file_header_len b)
  let want = get_be 0 (take 4 (drop (file_header_len + n) b))
  refuse_if (not (c.crc payload == want)) corrupt
  ok payload

unfoldable pub decode_payload : Codec → Bytes → Result State
unfolding decode_state
decode_payload c payload = do
  raw ← or_corrupt (c.inflate (max_decompressed + 1) payload)
  refuse_if (ltb max_decompressed (length raw)) corrupt
  as_corrupt (decode_state c raw)

-- b[4], which the length test before it puts in range
abbrev version_byte : Bytes → ℕ
version_byte b = get_be 0 (take 1 (drop 4 b))

-- The state of a file in the current format, or of one in plain JSON (then the flag is true).
unfoldable pub decode_file : Codec → Bytes → Result (State × Bool)
unfolding checked_payload decode_payload
decode_file c b =
    if not (has_prefix file_magic b)
    then (if not (is_blank b) && has_prefix (runes "ABD") b
        then err invalid
        else decode_state c b >>= λ st. ok (st, true))
    else do
      refuse_if (ltb (length b) (file_header_len + 4)) corrupt
      refuse_if (not (version_byte b == file_version)) invalid
      payload ← checked_payload c b
      st ← decode_payload c payload
      ok (st, false)
