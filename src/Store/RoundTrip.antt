-- ===== src/Store/RoundTrip.antt =====
-- store.go: a state that EncodeFile writes is read back by DecodeFile.
use agentboard.Prelude.{
  ℕ, suc, ◌+◌, ◌-◌, ◌≤◌, ◌<◌, ◌≡◌, refl, ap, ◌∙◌, true, false, some, List, [], ◌∷◌, ◌++◌, arith,
  ltb, ◌==◌, ==_iff, if◌then◌else◌, Str, runes, str_eq, length, length-append, take, drop,
  take-append, drop-append, drop-append-add, take-all,
}
use agentboard.Text.{has_prefix}
use agentboard.Password.{Bytes}
use agentboard.Model.Data.{State}
use agentboard.Board.Types.{ok, err, corrupt}
use agentboard.Store.Validate.{validate_state, migrate}
use agentboard.Store.Format.{
  Codec, file_magic, file_version, file_header_len, max_decompressed, put_be, get_be, be_bound,
  length-put_be, get_be-put_be, versioned, framed, payload_of, encode_file,
}
use agentboard.Store.Decode.{
  is_blank, looks_like_board, upgraded, decode_state, checked_payload, decode_payload, decode_file,
}

-- The fields that json.Marshal writes for a State: archived_through is left out when it is 0.
abbrev pub written_keys : State → List Str
written_keys st =
    runes "version"
    ∷ runes "projects"
    ∷ runes "tasks"
    ∷ runes "agents"
    ∷ runes "users"
    ∷ runes "activity"
    ∷ runes "next_activity_id"
    ∷ (if st.archived_through == 0 then [] else runes "archived_through" ∷ [])

-- What the file format relies on: JSON reads back what it wrote for this state, as an object with its
-- fields, inflating undoes deflating, and a checksum has 32 bits.
pub record IsCodecFor (c : Codec) (st : State) : Type 0 where
  pub unmarshal-marshal : c.unmarshal (c.marshal st) ≡ some st
  pub top_keys-marshal : c.top_keys (c.marshal st) ≡ some (written_keys st)
  pub rest : Bytes
  pub marshal_object : c.marshal st ≡ b'{' ∷ rest
  pub inflate-deflate : (n : ℕ) (bs : Bytes) → c.inflate n (c.deflate bs) ≡ some (take n bs)
  pub crc_32 : (bs : Bytes) → c.crc bs < be_bound 4

-- A file with any payload, length field and checksum.
abbrev pub raw_frame : ℕ → Bytes → ℕ → Bytes
raw_frame n payload sum = file_magic ++ (file_version ∷ (put_be 8 n ++ (payload ++ put_be 4 sum)))

pub length-raw_frame :
    (n : ℕ) (payload : Bytes) (sum : ℕ) → length (raw_frame n payload sum) ≡ length payload + 17
length-raw_frame n payload sum =
    let body = payload ++ put_be 4 sum in
    omega (
      arith,
      length-append (put_be 8 n) body,
      length-append payload (put_be 4 sum),
      length-put_be 8 n,
      length-put_be 4 sum,
    )

-- The header's length field is read back.
pub length_field :
    (n : ℕ) (body : Bytes)
    → n < be_bound 8
    → get_be 0 (take 8 (drop 5 (file_magic ++ (file_version ∷ (put_be 8 n ++ body))))) ≡ n
length_field n body h =
    ap (get_be 0) (take-append 8 (put_be 8 n) body (length-put_be 8 n)) ∙ get_be-put_be 8 n h

behind_header :
    (n k : ℕ) (body : Bytes)
    → drop (file_header_len + k) (file_magic ++ (file_version ∷ (put_be 8 n ++ body))) ≡ drop k body
behind_header n k body =
    let e : file_header_len + k ≡ suc (suc (suc (suc (suc (8 + k))))) = omega arith in
    rw e (drop-append-add 8 k (put_be 8 n) body (length-put_be 8 n))

-- checked_payload accepts a frame exactly if its length field and its checksum are right.
pub checked_payload-raw_frame :
    (c : Codec) (payload : Bytes) (sum : ℕ)
    → length payload < be_bound 8
    → sum < be_bound 4
    → checked_payload c (raw_frame (length payload) payload sum)
      ≡ (if c.crc payload == sum then ok payload else err corrupt)
unfolding checked_payload
checked_payload-raw_frame c payload sum fits small =
    let n = length payload in
    let body = payload ++ put_be 4 sum in
    let same : (n == length (raw_frame n payload sum) - file_header_len - 4) ≡ true =
      (==_iff n _).1 (omega (arith, length-raw_frame n payload sum)) in
    let start : drop file_header_len (raw_frame n payload sum) ≡ body = behind_header n 0 body in
    let read : take n (drop file_header_len (raw_frame n payload sum)) ≡ payload =
      ap (take n) start ∙ take-append n payload (put_be 4 sum) refl in
    let checksum : get_be 0 (take 4 (drop (file_header_len + n) (raw_frame n payload sum))) ≡ sum =
      ap (λ bs. get_be 0 (take 4 bs))
        (behind_header n n body ∙ drop-append n payload (put_be 4 sum) refl)
      ∙ ap (get_be 0) (take-all 4 (put_be 4 sum) (omega (arith, length-put_be 4 sum)))
      ∙ get_be-put_be 4 sum small in
    rw (length_field n body fits, same, read, checksum) (ground arith)

brace-is_blank : (s : Bytes) → is_blank (b'{' ∷ s) ≡ false
unfolding is_blank
brace-is_blank [] = refl
brace-is_blank (b ∷ []) = ground arith
brace-is_blank (b ∷ (d ∷ s)) = refl

-- What a state that was written says to the checks of DecodeState.
decode_state-marshal :
    (c : Codec) (st : State)
    → IsCodecFor c (versioned st)
    → validate_state (versioned st) ≡ ok tt
    → decode_state c (c.marshal (versioned st)) ≡ ok (versioned st)
unfolding decode_state looks_like_board upgraded migrate str_eq
decode_state-marshal c st laws valid =
    let object : is_blank (c.marshal (versioned st)) ≡ false =
      ap is_blank laws.marshal_object ∙ brace-is_blank laws.rest in
    rw (object, laws.top_keys-marshal, laws.unmarshal-marshal, valid) refl

-- A file that EncodeFile wrote is read back as the state, with the current version, and not as a
-- legacy file: if the state passes ValidateState, the payload's length fits 8 bytes, the JSON is no
-- longer than DecodeFile reads, and JSON, deflate and the checksum do what they say for this state.
pub decode_file-encode_file :
    (c : Codec) (st : State)
    → IsCodecFor c (versioned st)
    → validate_state (versioned st) ≡ ok tt
    → length (payload_of c st) < be_bound 8
    → length (c.marshal (versioned st)) ≤ max_decompressed
    → decode_file c (encode_file c st) ≡ ok (versioned st, false)
unfolding encode_file framed decode_file decode_payload payload_of has_prefix get_be
decode_file-encode_file c st laws valid fits short =
    let raw = c.marshal (versioned st) in
    let payload = c.deflate raw in
    let long : ltb (length (raw_frame (length payload) payload (c.crc payload)))
          (file_header_len + 4)
        ≡ false =
      let l = length-raw_frame (length payload) payload (c.crc payload) in ground arith in
    let same : (c.crc payload == c.crc payload) ≡ true = (==_iff _ _).1 refl in
    let checked : checked_payload c (raw_frame (length payload) payload (c.crc payload))
        ≡ ok payload =
      checked_payload-raw_frame c payload (c.crc payload) fits (laws.crc_32 payload)
      ∙ rw same refl in
    let inflated : c.inflate (max_decompressed + 1) payload ≡ some raw =
      laws.inflate-deflate (max_decompressed + 1) raw
      ∙ ap some (take-all (max_decompressed + 1) raw (omega arith)) in
    let whole : ltb max_decompressed (length raw) ≡ false = ground arith in
    rw (long, checked, inflated, whole, decode_state-marshal c st laws valid) refl
