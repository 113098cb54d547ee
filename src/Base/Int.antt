-- ===== src/Base/Int.antt =====
-- Signed integers over the native numbers, under the library's names.
use Prim.Native.Nat.{ℕ, suc, ◌+◌, ◌-◌, ◌*◌}
use mathlib.Core.Path.{◌≡◌}
use mathlib.Core.Bool.{Bool}
use native.Mathlib.Omega.{arith}
use campus_compile.Base.Tests.{ltb, leb, if◌then◌else◌}

-- `negsuc n` is -(n + 1).
pub data ℤ : Type 0 where
  pos : ℕ → ℤ
  negsuc : ℕ → ℤ

abbrev pub pos_part : ℤ → ℕ
pos_part (pos n) = n
pos_part (negsuc n) = 0

abbrev pub neg_part : ℤ → ℕ
neg_part (pos n) = 0
neg_part (negsuc n) = suc n

-- a - b, as an integer.
abbrev pub sub_ℕ : ℕ → ℕ → ℤ
sub_ℕ a b = if leb b a then pos (a - b) else negsuc (b - a - 1)

infixl 65 ◌+ℤ◌ ◌-ℤ◌
unfoldable pub ◌+ℤ◌ : ℤ → ℤ → ℤ
a +ℤ b = sub_ℕ (pos_part a + pos_part b) (neg_part a + neg_part b)

unfoldable pub ◌-ℤ◌ : ℤ → ℤ → ℤ
a -ℤ b = sub_ℕ (pos_part a + neg_part b) (neg_part a + pos_part b)

-- A natural multiple.
unfoldable pub scale : ℕ → ℤ → ℤ
scale k a = sub_ℕ (k * pos_part a) (k * neg_part a)

abbrev pub square : ℤ → ℕ
square (pos n) = n * n
square (negsuc n) = suc n * suc n

abbrev pub ltb_ℤ : ℤ → ℤ → Bool
ltb_ℤ a b = ltb (pos_part a + neg_part b) (pos_part b + neg_part a)

-- Going from a to b and on to c.
pub sub_ℕ-+ℤ : (a b c : ℕ) → sub_ℕ b a +ℤ sub_ℕ c b ≡ sub_ℕ c a
unfolding ◌+ℤ◌
sub_ℕ-+ℤ a b c = ground arith

pub sub_ℕ_self : (a : ℕ) → sub_ℕ a a ≡ pos 0
sub_ℕ_self a = ground arith

pub sub_ℕ-add : (a d : ℕ) → sub_ℕ (a + d) a ≡ pos d
sub_ℕ-add a d = ground arith

pub -ℤ_self : (a : ℤ) → a -ℤ a ≡ pos 0
unfolding ◌-ℤ◌
-ℤ_self a = ground arith
