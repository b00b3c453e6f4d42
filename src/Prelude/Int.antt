-- ===== src/Prelude/Int.antt =====
-- Signed integers over the native numbers: `negsuc n` is -(n + 1).
use Prim.Native.Nat.{ℕ, suc, ◌+◌}
use mathlib.Core.Path.{◌≡◌, refl}
use mathlib.Core.Bool.{Bool}
use agentboard.Prelude.Tests.{ltb}

pub data ℤ : Type 0 where
  pos : ℕ → ℤ
  negsuc : ℕ → ℤ

abbrev pub pos_part : ℤ → ℕ
pos_part (pos n) = n
pos_part (negsuc n) = 0

abbrev pub neg_part : ℤ → ℕ
neg_part (pos n) = 0
neg_part (negsuc n) = suc n

abbrev pub ltb_ℤ : ℤ → ℤ → Bool
ltb_ℤ a b = ltb (pos_part a + neg_part b) (pos_part b + neg_part a)

abbrev pub neg_ℕ : ℕ → ℤ
neg_ℕ Prim.Native.Nat.zero = pos 0
neg_ℕ (suc n) = negsuc n

pub pos_part-neg_ℕ : (n : ℕ) → pos_part (neg_ℕ n) ≡ 0
pos_part-neg_ℕ Prim.Native.Nat.zero = refl
pos_part-neg_ℕ (suc n) = refl

pub neg_part-neg_ℕ : (n : ℕ) → neg_part (neg_ℕ n) ≡ n
neg_part-neg_ℕ Prim.Native.Nat.zero = refl
neg_part-neg_ℕ (suc n) = refl
