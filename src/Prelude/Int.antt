-- ===== src/Prelude/Int.antt =====
-- Signed integers over the native numbers, and Go's int64 with its wrap-around.
use Prim.Native.Nat.{ℕ, suc, ◌+◌, ◌-◌, ◌%◌, ◌^◌, ◌≤◌, ◌<◌}
use mathlib.Core.Path.{◌≡◌, refl}
use mathlib.Core.Bool.{Bool, true}
use native.Mathlib.Omega.{arith}
use offline_pay.Prelude.Tests.{ltb, leb, if◌then◌else◌}

-- `negsuc n` is -(n + 1).
pub data ℤ : Type 0 where
  pos : ℕ → ℤ
  negsuc : ℕ → ℤ

abbrev pub pos_part : ℤ → ℕ
pos_part (pos n) = n
pos_part (negsuc n) = 0

abbrev pub neg_part : ℤ → ℕ
neg_part (pos n) = 0
neg_part (negsuc n) = suc n

abbrev pub sub_ℕ : ℕ → ℕ → ℤ
sub_ℕ a b = if leb b a then pos (a - b) else negsuc (b - a - 1)

infixl 65 ◌+ℤ◌ ◌-ℤ◌
infix 50 ◌≤ℤ◌ ◌<ℤ◌
unfoldable pub ◌+ℤ◌ : ℤ → ℤ → ℤ
a +ℤ b = sub_ℕ (pos_part a + pos_part b) (neg_part a + neg_part b)

unfoldable pub ◌-ℤ◌ : ℤ → ℤ → ℤ
a -ℤ b = sub_ℕ (pos_part a + neg_part b) (neg_part a + pos_part b)

abbrev pub ◌≤ℤ◌ : ℤ → ℤ → Type 0
a ≤ℤ b = pos_part a + neg_part b ≤ pos_part b + neg_part a

abbrev pub ◌<ℤ◌ : ℤ → ℤ → Type 0
a <ℤ b = pos_part a + neg_part b < pos_part b + neg_part a

abbrev pub ltb_ℤ : ℤ → ℤ → Bool
ltb_ℤ a b = ltb (pos_part a + neg_part b) (pos_part b + neg_part a)

abbrev pub leb_ℤ : ℤ → ℤ → Bool
leb_ℤ a b = leb (pos_part a + neg_part b) (pos_part b + neg_part a)

pub +ℤ_parts :
    (a b : ℤ)
    → pos_part (a +ℤ b) + neg_part a + neg_part b ≡ neg_part (a +ℤ b) + pos_part a + pos_part b
unfolding ◌+ℤ◌
+ℤ_parts a b = ground arith

pub -ℤ_parts :
    (a b : ℤ)
    → pos_part (a -ℤ b) + neg_part a + pos_part b ≡ neg_part (a -ℤ b) + pos_part a + neg_part b
unfolding ◌-ℤ◌
-ℤ_parts a b = ground arith

pub eq_of_parts : (a b : ℤ) → pos_part a + neg_part b ≡ pos_part b + neg_part a → a ≡ b
eq_of_parts a b h = ground arith

-- Hands an equation of integers over to `omega`.
pub parts_of_eq : {a b : ℤ} → a ≡ b → pos_part a + neg_part b ≡ pos_part b + neg_part a
parts_of_eq {a} e = rw (← e)

pub ruleset int_laws = (arith, +ℤ_parts, -ℤ_parts, eq_of_parts)

-- The residue of an integer modulo 2^64, read as two's complement.
unfoldable pub wrap64 : ℤ → ℤ
wrap64 (pos n) = let m = n % 2 ^ 64 in if ltb m (2 ^ 63) then pos m else negsuc (2 ^ 64 - 1 - m)
wrap64 (negsuc n) = let m = n % 2 ^ 64 in if ltb m (2 ^ 63) then negsuc m else pos (2 ^ 64 - 1 - m)

-- `a + b` and `a - b` on int64.
unfoldable pub add64 : ℤ → ℤ → ℤ
add64 a b = wrap64 (a +ℤ b)

unfoldable pub sub64 : ℤ → ℤ → ℤ
sub64 a b = wrap64 (a -ℤ b)

-- The values of an int64.
abbrev pub IsInt64 : ℤ → Type 0
IsInt64 z = (pos_part z < 2 ^ 63) × (neg_part z ≤ 2 ^ 63)

pub wrap64-exact : (z : ℤ) → IsInt64 z → wrap64 z ≡ z
unfolding wrap64
wrap64-exact (pos n) h = ground arith
wrap64-exact (negsuc n) h = ground arith

pub wrap64-IsInt64 : (z : ℤ) → IsInt64 (wrap64 z)
unfolding wrap64
wrap64-IsInt64 (pos n) = ground arith
wrap64-IsInt64 (negsuc n) = ground arith

-- What a column with `CHECK (x >= 0)` holds.
abbrev pub IsNonneg : ℤ → Type 0
IsNonneg z = neg_part z ≡ 0

pub leb_ℤ→IsNonneg : (z : ℤ) → leb_ℤ (pos 0) z ≡ true → IsNonneg z
leb_ℤ→IsNonneg (pos n) h = refl
leb_ℤ→IsNonneg (negsuc n) h = ground arith

-- A value below 2^64 wraps to itself or to a negative value.
pub wrap64-nonneg : (z : ℤ) → IsNonneg z → pos_part z < 2 ^ 64 → IsNonneg (wrap64 z) → wrap64 z ≡ z
unfolding wrap64
wrap64-nonneg (pos n) p h w = ground arith
wrap64-nonneg (negsuc n) p h w = absurd (omega arith)

pub add64-nonneg :
    (a b : ℤ)
    → IsNonneg a
    → IsInt64 a
    → IsNonneg b
    → IsInt64 b
    → IsNonneg (add64 a b)
    → add64 a b ≡ a +ℤ b
unfolding add64 ◌+ℤ◌
add64-nonneg (pos a) (pos b) p ia q ib h =
    wrap64-nonneg (pos a +ℤ pos b) (ground arith) (ground arith) h
add64-nonneg (pos a) (negsuc b) p ia q ib h = absurd (omega arith)
add64-nonneg (negsuc a) b p ia q ib h = absurd (omega arith)

-- A difference of two values that are not negative is exact.
pub sub64-nonneg : (a b : ℤ) → IsNonneg a → IsInt64 a → IsNonneg b → IsInt64 b → sub64 a b ≡ a -ℤ b
unfolding sub64 ◌-ℤ◌
sub64-nonneg (pos a) (pos b) p ia q ib = wrap64-exact (pos a -ℤ pos b) (ground arith, ground arith)
sub64-nonneg (pos a) (negsuc b) p ia q ib = absurd (omega arith)
sub64-nonneg (negsuc a) b p ia q ib = absurd (omega arith)
