-- ===== src/Password.antt =====
-- pbkdf2.go: password hashing. HMAC-SHA256 is the parameter `prf`: a keyed function on bytes whose
-- result has 32 of them; rand.Read hands in the salt.
use Prim.Native.Nat.{bit_xor}
use agentboard.Prelude.{
  ℕ, zero, suc, ◌+◌, ◌-◌, ◌*◌, ◌/◌, ◌%◌, ◌≡◌, refl, Bool, true, List, [], ◌∷◌, ◌++◌, arith, length,
  length-append, length-take, take, Str, str_eq, str_eq_refl,
}

abbrev pub Bytes : Type 0
Bytes = List ℕ

abbrev pub pbkdf2_iterations : ℕ
pbkdf2_iterations = 600_000

abbrev pub salt_len : ℕ
salt_len = 16

abbrev pub key_len : ℕ
key_len = 32

abbrev pub hash_size : ℕ
hash_size = 32

-- `t[j] ^= u[j]` for every j of t.
xor_into : Bytes → Bytes → Bytes
xor_into [] us = []
xor_into (t ∷ ts) [] = t ∷ ts
xor_into (t ∷ ts) (u ∷ us) = bit_xor t u ∷ xor_into ts us

-- binary.BigEndian.PutUint32
big_endian32 : ℕ → Bytes
big_endian32 n = (n / 16777216 % 256) ∷ (n / 65536 % 256) ∷ (n / 256 % 256) ∷ (n % 256) ∷ []

length-xor_into : (ts us : Bytes) → length (xor_into ts us) ≡ length ts
unfolding xor_into
length-xor_into [] us = refl
length-xor_into (t ∷ ts) [] = refl
length-xor_into (t ∷ ts) (u ∷ us) = omega (arith, length-xor_into ts us)

module _ (prf : Str → Bytes → Bytes) where
  -- The rounds left, the last `u` and the sum `t` so far.
  rounds : ℕ → Str → Bytes → Bytes → Bytes
  rounds zero password u t = t
  rounds (suc n) password u t = let u' = prf password u in rounds n password u' (xor_into t u')

  block_key : Str → Bytes → ℕ → ℕ → Bytes
  block_key password salt iterations block =
      let u = prf password (salt ++ big_endian32 block) in rounds (iterations - 1) password u u

  -- The blocks from `block` on, `left` of them.
  block_keys : Str → Bytes → ℕ → ℕ → ℕ → Bytes
  block_keys password salt iterations zero block = []
  block_keys password salt iterations (suc left) block =
      block_key password salt iterations block
      ++ block_keys password salt iterations left (block + 1)

  unfoldable pub pbkdf2_sha256 : Str → Bytes → ℕ → ℕ → Bytes
  unfolding rounds block_key block_keys xor_into big_endian32
  pbkdf2_sha256 password salt iterations len =
      take len (block_keys password salt iterations ((len + hash_size - 1) / hash_size) 1)

  -- The hash that hashPassword returns beside the salt and the work factor.
  unfoldable pub hash_password : Str → Bytes → Bytes
  hash_password password salt = pbkdf2_sha256 password salt pbkdf2_iterations key_len

  -- subtle.ConstantTimeCompare(got, hash) == 1
  unfoldable pub verify_password : Str → Bytes → Bytes → ℕ → Bool
  verify_password password hash salt iterations =
      str_eq (pbkdf2_sha256 password salt iterations (length hash)) hash

  module _ (sized : (key : Str) (msg : Bytes) → length (prf key msg) ≡ hash_size) where
    length-rounds :
        (n : ℕ) (password : Str) (u t : Bytes)
        → length t ≡ hash_size
        → length (rounds n password u t) ≡ hash_size
    unfolding rounds
    length-rounds zero password u t h = h
    length-rounds (suc n) password u t h =
        length-rounds n password (prf password u) (xor_into t (prf password u))
          (omega (arith, length-xor_into t (prf password u)))

    length-block_keys :
        (password : Str) (salt : Bytes) (iterations left block : ℕ)
        → length (block_keys password salt iterations left block) ≡ left * hash_size
    unfolding block_keys block_key
    length-block_keys password salt iterations zero block = omega arith
    length-block_keys password salt iterations (suc left) block =
        let u = prf password (salt ++ big_endian32 block) in
        omega (
          arith,
          length-append (rounds (iterations - 1) password u u)
              (block_keys password salt iterations left (block + 1)),
          length-rounds (iterations - 1) password u u (sized password (salt ++ big_endian32 block)),
          length-block_keys password salt iterations left (block + 1),
        )

    -- The derived key has the length asked for, whatever the work factor, if HMAC-SHA256 has 32 bytes.
    pub length-pbkdf2_sha256 :
        (password : Str) (salt : Bytes) (iterations len : ℕ)
        → length (pbkdf2_sha256 password salt iterations len) ≡ len
    unfolding pbkdf2_sha256
    length-pbkdf2_sha256 password salt iterations len =
        let blocks = (len + hash_size - 1) / hash_size in
        length-take len (block_keys password salt iterations blocks 1)
          (omega (arith, length-block_keys password salt iterations blocks 1))

    -- The password that was hashed is verified, under the salt and work factor kept with the hash, if
    -- HMAC-SHA256 has 32 bytes.
    pub verify_password-hash_password :
        (password : Str) (salt : Bytes)
        → verify_password password (hash_password password salt) salt pbkdf2_iterations ≡ true
    unfolding verify_password hash_password
    verify_password-hash_password password salt =
        rw (length-pbkdf2_sha256 password salt pbkdf2_iterations key_len)
          (str_eq_refl (pbkdf2_sha256 password salt pbkdf2_iterations key_len))
