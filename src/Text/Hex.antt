-- ===== src/Text/Hex.antt =====
-- hex.EncodeToString of encoding/hex.
use agentboard.Prelude.{
  ℕ, ◌+◌, ◌/◌, ◌%◌, ◌<◌, ◌≡◌, refl, ap, ◌∙◌, List, [], ◌∷◌, All, arith, ltb, if◌then◌else◌, Str,
  runes,
}

abbrev hex_digit : ℕ → ℕ
hex_digit d = if ltb d 10 then 48 + d else 87 + d

unfoldable pub encode_hex : List ℕ → Str
encode_hex [] = []
encode_hex (b ∷ bs) = hex_digit (b / 16) ∷ hex_digit (b % 16) ∷ encode_hex bs

three_bytes : encode_hex (0 ∷ 171 ∷ 255 ∷ []) ≡ runes "00abff"
unfolding encode_hex
three_bytes = refl

abbrev pub AreBytes : List ℕ → Type 0
AreBytes bs = All (λ b. b < 256) bs

hex_digit-injective : (m n : ℕ) → m < 16 → n < 16 → hex_digit m ≡ hex_digit n → m ≡ n
hex_digit-injective m n h k e = ground arith

pub head_tail : {x y : ℕ} {xs ys : List ℕ} → x ∷ xs ≡ y ∷ ys → (x ≡ y) × (xs ≡ ys)
head_tail e = (cc, cc)

-- Bytes are read off their digits.
pub encode_hex-injective :
    (xs ys : List ℕ) → AreBytes xs → AreBytes ys → encode_hex xs ≡ encode_hex ys → xs ≡ ys
unfolding encode_hex
encode_hex-injective [] [] h k e = refl
encode_hex-injective [] (y ∷ ys) h k e = cc
encode_hex-injective (x ∷ xs) [] h k e = cc
encode_hex-injective (x ∷ xs) (y ∷ ys) h k e =
    let (high, more) = head_tail e in
    let (low, rest) = head_tail more in
    let one = h.0 in
    let two = k.0 in
    let q = hex_digit-injective (x / 16) (y / 16) (omega arith) (omega arith) high in
    let r = hex_digit-injective (x % 16) (y % 16) (omega arith) (omega arith) low in
    ap (λ b. b ∷ xs) (omega (arith, q, r))
    ∙ ap (λ bs. y ∷ bs) (encode_hex-injective xs ys h.1 k.1 rest)
