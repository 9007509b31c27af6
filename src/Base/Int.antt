-- ===== src/Base/Int.antt =====
-- Signed integers over the native numbers, under the library's names, and `int32_t` patterns.
use Prim.Native.Nat.{ℕ, suc, ◌+◌, ◌-◌, ◌*◌, ◌^◌}
use mathlib.Core.Path.{◌≡◌}
use native.Mathlib.Omega.{arith}
use aperture4_nick.Base.Tests.{ltb, leb, ◌==◌, if◌then◌else◌}

-- `negsuc n` is -(n + 1).
pub data ℤ : Type 0 where
  pos : ℕ → ℤ
  negsuc : ℕ → ℤ

abbrev pub pos_part : ℤ → ℕ
pos_part (pos n) = n
pos_part (negsuc n) = 0

abbrev pub neg_part : ℤ → ℕ
neg_part (pos n) = 0
neg_part (negsuc n) = suc n

abbrev pub sub_ℕ : ℕ → ℕ → ℤ
sub_ℕ a b = if leb b a then pos (a - b) else negsuc (b - a - 1)

infixl 65 ◌+ℤ◌ ◌-ℤ◌
unfoldable pub ◌+ℤ◌ : ℤ → ℤ → ℤ
a +ℤ b = sub_ℕ (pos_part a + pos_part b) (neg_part a + neg_part b)

unfoldable pub ◌-ℤ◌ : ℤ → ℤ → ℤ
a -ℤ b = sub_ℕ (pos_part a + neg_part b) (neg_part a + pos_part b)

-- the product with a natural number
abbrev pub scale : ℤ → ℕ → ℤ
scale (pos n) s = pos (n * s)
scale (negsuc n) s = if s == 0 then pos 0 else negsuc (suc n * s - 1)

-- The number that a 32-bit pattern stands for as an `int32_t`.
abbrev pub signed32 : ℕ → ℤ
signed32 w = if ltb w (2 ^ 31) then pos w else negsuc (2 ^ 32 - w - 1)

pub +ℤ-pos : (a b : ℕ) → pos a +ℤ pos b ≡ pos (a + b)
unfolding ◌+ℤ◌
+ℤ-pos a b = ground arith

pub -ℤ-pos : (a b : ℕ) → pos (a + b) -ℤ pos b ≡ pos a
unfolding ◌-ℤ◌
-ℤ-pos a b = ground arith

pub +ℤ-negsuc : (a b : ℕ) → pos (a + suc b) +ℤ negsuc b ≡ pos a
unfolding ◌+ℤ◌
+ℤ-negsuc a b = ground arith

pub -ℤ-negsuc : (a b : ℕ) → pos a -ℤ negsuc b ≡ pos (a + suc b)
unfolding ◌-ℤ◌
-ℤ-negsuc a b = ground arith
