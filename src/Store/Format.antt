-- ===== src/Store/Format.antt =====
-- store.go: EncodeFile. JSON, deflate and CRC-32C are the fields of a Codec.
use agentboard.Prelude.{
  ℕ, zero, suc, ◌+◌, ◌*◌, ◌/◌, ◌%◌, ◌<◌, ◌≡◌, refl, ap, ◌∙◌, Option, List, [], ◌∷◌, ◌++◌, arith,
  Str, runes, length, length-append,
}
use agentboard.Prelude.Int.{pos}
use agentboard.Password.{Bytes}
use agentboard.Model.Data.{State, schema_version}

-- `marshal` and `unmarshal` are json.Marshal and json.Unmarshal of a State, `top_keys` the keys of a
-- JSON object, `inflate n` reads at most n bytes of a deflated text, and `crc` is crc32.Checksum.
pub record Codec : Type 0 where
  pub marshal : State → Bytes
  pub unmarshal : Bytes → Option State
  pub top_keys : Bytes → Option (List Str)
  pub deflate : Bytes → Bytes
  pub inflate : ℕ → Bytes → Option Bytes
  pub crc : Bytes → ℕ

abbrev pub file_magic : Bytes
file_magic = runes "ABD2"

abbrev pub file_version : ℕ
file_version = 2

abbrev pub file_header_len : ℕ
file_header_len = 13

abbrev pub max_decompressed : ℕ
max_decompressed = 1_073_741_824

-- binary.BigEndian: `k` bytes, the highest first.
unfoldable pub put_be : ℕ → ℕ → Bytes
put_be zero n = []
put_be (suc k) n = put_be k (n / 256) ++ n % 256 ∷ []

unfoldable pub get_be : ℕ → Bytes → ℕ
get_be acc [] = acc
get_be acc (b ∷ bs) = get_be (acc * 256 + b) bs

-- `256 ^ k`
abbrev pub be_bound : ℕ → ℕ
be_bound zero = 1
be_bound (suc k) = 256 * be_bound k

pub length-put_be : (k n : ℕ) → length (put_be k n) ≡ k
unfolding put_be
length-put_be zero n = refl
length-put_be (suc k) n =
    length-append (put_be k (n / 256)) (n % 256 ∷ []) ∙ omega (arith, length-put_be k (n / 256))

get_be-append : (acc : ℕ) (xs ys : Bytes) → get_be acc (xs ++ ys) ≡ get_be (get_be acc xs) ys
unfolding get_be
get_be-append acc [] ys = refl
get_be-append acc (x ∷ xs) ys = get_be-append (acc * 256 + x) xs ys

-- A number that fits is read back.
pub get_be-put_be : (k n : ℕ) → n < be_bound k → get_be 0 (put_be k n) ≡ n
unfolding get_be put_be
get_be-put_be zero n h = omega arith
get_be-put_be (suc k) n h =
    get_be-append 0 (put_be k (n / 256)) (n % 256 ∷ [])
    ∙ ap (λ m. m * 256 + n % 256) (get_be-put_be k (n / 256) (omega arith))
    ∙ omega arith

-- EncodeFile sets the version first.
abbrev pub versioned : State → State
versioned st = record st { version = pos schema_version }

-- The file around a compressed payload.
unfoldable pub framed : Codec → Bytes → Bytes
framed c payload =
    file_magic
    ++ (file_version ∷ (put_be 8 (length payload) ++ (payload ++ put_be 4 (c.crc payload))))

unfoldable pub payload_of : Codec → State → Bytes
payload_of c st = c.deflate (c.marshal (versioned st))

unfoldable pub encode_file : Codec → State → Bytes
unfolding framed payload_of
encode_file c st = framed c (payload_of c st)
