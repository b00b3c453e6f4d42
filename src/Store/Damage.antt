-- ===== src/Store/Damage.antt =====
-- store.go: a damaged data file is refused.
use mathlib.Core.List.{append_assoc}
use agentboard.Prelude.{
  ℕ, suc, ◌+◌, ◌-◌, ◌≤◌, ◌<◌, ◌≡◌, ◌≢◌, refl, sym, ap, ◌∙◌, true, false, ◌∷◌, ◌++◌, arith, ltb,
  ◌==◌, length, length-append, length-take, take, take-append-add, Bool-cases, inl, inr,
}
use agentboard.Text.{has_prefix}
use agentboard.Password.{Bytes}
use agentboard.Model.Data.{State}
use agentboard.Board.Types.{err, corrupt}
use agentboard.Store.Format.{
  Codec, file_magic, file_version, file_header_len, put_be, get_be, be_bound, length-put_be, framed,
  payload_of, encode_file,
}
use agentboard.Store.Decode.{checked_payload, decode_file}
use agentboard.Store.RoundTrip.{
  raw_frame, length-raw_frame, length_field, checked_payload-raw_frame,
}

-- A file that starts as one of the current format, with what follows its length field.
abbrev headed : ℕ → Bytes → Bytes
headed n body = file_magic ++ (file_version ∷ (put_be 8 n ++ body))

length-headed : (n : ℕ) (body : Bytes) → length (headed n body) ≡ length body + 13
length-headed n body = omega (arith, length-append (put_be 8 n) body, length-put_be 8 n)

-- A file whose length field does not fit what follows is corrupt.
wrong_length :
    (c : Codec) (n : ℕ) (body : Bytes)
    → n < be_bound 8
    → length body ≢ n + 4
    → decode_file c (headed n body) ≡ err corrupt
unfolding decode_file checked_payload has_prefix get_be
wrong_length c n body fits differ =
    elim (Bool-cases (ltb (length (headed n body)) (file_header_len + 4))) [
      | inl short ↦ rw short refl
      | inr long ↦
          let off : (n == length (headed n body) - file_header_len - 4) ≡ false =
            let l = length-headed n body in ground arith in
          rw (long, length_field n body fits, off) refl
    ]

-- Fewer bytes than a header and a checksum are corrupt.
short_file :
    (c : Codec) (b : Bytes)
    → has_prefix file_magic b ≡ true
    → length b < file_header_len + 4
    → decode_file c b ≡ err corrupt
unfolding decode_file
short_file c b magic short =
    let test : ltb (length b) (file_header_len + 4) ≡ true = ground arith in rw (magic, test) refl

take-has_prefix :
    (k : ℕ) (b : Bytes) → has_prefix file_magic (take (4 + k) (file_magic ++ b)) ≡ true
unfolding has_prefix
take-has_prefix k b = let e : 4 + k ≡ suc (suc (suc (suc k))) = omega arith in rw e refl

take-headed : (n k : ℕ) (body : Bytes) → take (5 + (8 + k)) (headed n body) ≡ headed n (take k body)
take-headed n k body =
    let e : 5 + (8 + k) ≡ suc (suc (suc (suc (suc (8 + k))))) = omega arith in
    rw e (
      ap (λ bs. file_magic ++ (file_version ∷ bs))
        (take-append-add 8 k (put_be 8 n) body (length-put_be 8 n)))

-- A file that was cut off behind its magic, wherever, is refused as corrupt.
pub truncated_is_corrupt :
    (c : Codec) (st : State) (k : ℕ)
    → length (payload_of c st) < be_bound 8
    → 4 ≤ k
    → k < length (encode_file c st)
    → decode_file c (take k (encode_file c st)) ≡ err corrupt
unfolding encode_file framed
truncated_is_corrupt c st k fits low high =
    let payload = payload_of c st in
    let body = payload ++ put_be 4 (c.crc payload) in
    let size = length-raw_frame (length payload) payload (c.crc payload) in
    elim (Bool-cases (ltb k 17)) [
      | inl early ↦
          let four : k ≡ 4 + (k - 4) = ground arith in
          let cut : length (take k (encode_file c st)) ≡ k = length-take k _ (omega arith) in
          short_file c (take k (encode_file c st))
            (ap (λ i. has_prefix file_magic (take i (encode_file c st))) four
              ∙ take-has_prefix (k - 4) (file_version ∷ (put_be 8 (length payload) ++ body)))
            (ground arith)
      | inr late ↦
          let behind : k ≡ 5 + (8 + (k - 13)) = ground arith in
          let cut : take k (encode_file c st) ≡ headed (length payload) (take (k - 13) body) =
            ap (λ i. take i (encode_file c st)) behind
            ∙ take-headed (length payload) (k - 13) body in
          let left : length (take (k - 13) body) ≡ k - 13 = length-take (k - 13) body (
            omega (
              arith,
              length-append payload (put_be 4 (c.crc payload)),
              length-put_be 4 (c.crc payload),
            )) in
          rw cut (wrong_length c (length payload) (take (k - 13) body) fits (λ e. ground arith))
    ]

-- A file with anything appended is refused as corrupt.
appended_is_corrupt :
    (c : Codec) (st : State) (more : Bytes)
    → length (payload_of c st) < be_bound 8
    → 0 < length more
    → decode_file c (encode_file c st ++ more) ≡ err corrupt
unfolding encode_file framed
appended_is_corrupt c st more fits some_bytes =
    let payload = payload_of c st in
    let body = payload ++ put_be 4 (c.crc payload) in
    let joined : encode_file c st ++ more ≡ headed (length payload) (body ++ more) =
      ap (λ bs. file_magic ++ (file_version ∷ bs))
        (append_assoc (put_be 8 (length payload)) body more) in
    rw joined (
      wrong_length c (length payload) (body ++ more) fits (λ e. omega (
        arith,
        length-append body more,
        length-append payload (put_be 4 (c.crc payload)),
        length-put_be 4 (c.crc payload),
      )))

-- A file whose payload was changed to another of the same length, which the checksum tells apart, is
-- refused as corrupt.
pub changed_is_corrupt :
    (c : Codec) (st : State) (payload : Bytes)
    → length (payload_of c st) < be_bound 8
    → c.crc (payload_of c st) < be_bound 4
    → length payload ≡ length (payload_of c st)
    → c.crc payload ≢ c.crc (payload_of c st)
    → decode_file c (raw_frame (length (payload_of c st)) payload (c.crc (payload_of c st)))
      ≡ err corrupt
unfolding decode_file has_prefix get_be
changed_is_corrupt c st payload fits small same differ =
    let n = length (payload_of c st) in
    let sum = c.crc (payload_of c st) in
    let frame = raw_frame n payload sum in
    let long : ltb (length frame) (file_header_len + 4) ≡ false =
      let l = length-raw_frame n payload sum in ground arith in
    let apart : (c.crc payload == sum) ≡ false = ground arith in
    let refused : checked_payload c frame ≡ err corrupt =
      ap (λ m. checked_payload c (raw_frame m payload sum)) (sym same)
      ∙ checked_payload-raw_frame c payload sum (omega arith) small
      ∙ rw apart refl in
    rw (long, refused) refl
