-- ===== src/Base/Int.antt =====
-- Signed integers over the native numbers, under the library's names (its ℤ stands on the unary ℕ),
-- and the machine's i32 and i64: an integer in range, with Rust's checked and saturating operations.
use Prim.Native.Nat.{ℕ, suc, ◌+◌, ◌-◌, ◌*◌, ◌/◌, ◌≤◌, ◌^◌}
use mathlib.Core.Path.{◌≡◌}
use mathlib.Core.Bool.{Bool, ◌&&◌}
use mathlib.Core.Option.{Option, none, some}
use native.Mathlib.Omega.{arith}
use dungeon_barrage.Base.Tests.{ltb, leb, if◌then◌else◌}

-- `negsuc n` is -(n + 1).
pub data ℤ : Type 0 where
  pos : ℕ → ℤ
  negsuc : ℕ → ℤ

abbrev pub pos_part : ℤ → ℕ
pos_part (pos n) = n
pos_part (negsuc n) = 0

abbrev pub neg_part : ℤ → ℕ
neg_part (pos n) = 0
neg_part (negsuc n) = suc n

-- a - b, as an integer.
abbrev pub sub_ℕ : ℕ → ℕ → ℤ
sub_ℕ a b = if leb b a then pos (a - b) else negsuc (b - a - 1)

infixl 65 ◌+ℤ◌ ◌-ℤ◌
infixl 70 ◌*ℤ◌
infix 50 ◌≤ℤ◌
unfoldable pub ◌+ℤ◌ : ℤ → ℤ → ℤ
a +ℤ b = sub_ℕ (pos_part a + pos_part b) (neg_part a + neg_part b)

unfoldable pub ◌-ℤ◌ : ℤ → ℤ → ℤ
a -ℤ b = sub_ℕ (pos_part a + neg_part b) (neg_part a + pos_part b)

unfoldable pub neg : ℤ → ℤ
neg a = sub_ℕ (neg_part a) (pos_part a)

unfoldable pub ◌*ℤ◌ : ℤ → ℤ → ℤ
a *ℤ b =
    sub_ℕ (pos_part a * pos_part b + neg_part a * neg_part b)
      (pos_part a * neg_part b + neg_part a * pos_part b)

abbrev pub ◌≤ℤ◌ : ℤ → ℤ → Type 0
a ≤ℤ b = pos_part a + neg_part b ≤ pos_part b + neg_part a

abbrev pub leb_ℤ : ℤ → ℤ → Bool
leb_ℤ a b = leb (pos_part a + neg_part b) (pos_part b + neg_part a)

abbrev pub ltb_ℤ : ℤ → ℤ → Bool
ltb_ℤ a b = ltb (pos_part a + neg_part b) (pos_part b + neg_part a)

-- `Ord::min` and `Ord::max`.
abbrev pub min_ℤ : ℤ → ℤ → ℤ
min_ℤ a b = if leb_ℤ a b then a else b

abbrev pub max_ℤ : ℤ → ℤ → ℤ
max_ℤ a b = if leb_ℤ a b then b else a

-- The bounds of an i32 and an i64.
abbrev pub i32_max : ℤ
i32_max = pos (2 ^ 31 - 1)

abbrev pub i32_min : ℤ
i32_min = negsuc (2 ^ 31 - 1)

abbrev pub i64_max : ℤ
i64_max = pos (2 ^ 63 - 1)

abbrev pub i64_min : ℤ
i64_min = negsuc (2 ^ 63 - 1)

abbrev pub IsI32 : ℤ → Type 0
IsI32 a = (i32_min ≤ℤ a) × (a ≤ℤ i32_max)

abbrev pub IsI64 : ℤ → Type 0
IsI64 a = (i64_min ≤ℤ a) × (a ≤ℤ i64_max)

abbrev pub in_i32 : ℤ → Bool
in_i32 a = leb_ℤ i32_min a && leb_ℤ a i32_max

abbrev pub in_i64 : ℤ → Bool
in_i64 a = leb_ℤ i64_min a && leb_ℤ a i64_max

-- The result of a checked operation, given the true result.
unfoldable pub checked_i32 : ℤ → Option ℤ
checked_i32 a = if in_i32 a then some a else none

unfoldable pub checked_i64 : ℤ → Option ℤ
checked_i64 a = if in_i64 a then some a else none

-- The result of a saturating operation, given the true result.
unfoldable pub sat_i32 : ℤ → ℤ
sat_i32 a = if ltb_ℤ a i32_min then i32_min else if ltb_ℤ i32_max a then i32_max else a

unfoldable pub sat_i64 : ℤ → ℤ
sat_i64 a = if ltb_ℤ a i64_min then i64_min else if ltb_ℤ i64_max a then i64_max else a

-- `div_euclid` and `checked_div` by a positive number: the first rounds down, the second to zero.
unfoldable pub div_euclid : ℤ → ℕ → ℤ
div_euclid (pos n) d = pos (n / d)
div_euclid (negsuc n) d = negsuc (n / d)

unfoldable pub div_trunc : ℤ → ℕ → ℤ
unfolding neg
div_trunc (pos n) d = pos (n / d)
div_trunc (negsuc n) d = neg (pos (suc n / d))

pub +ℤ_parts :
    (a b : ℤ)
    → pos_part (a +ℤ b) + neg_part a + neg_part b ≡ neg_part (a +ℤ b) + pos_part a + pos_part b
unfolding ◌+ℤ◌
+ℤ_parts a b = ground arith

pub -ℤ_parts :
    (a b : ℤ)
    → pos_part (a -ℤ b) + neg_part a + pos_part b ≡ neg_part (a -ℤ b) + pos_part a + neg_part b
unfolding ◌-ℤ◌
-ℤ_parts a b = ground arith

pub eq_of_parts : (a b : ℤ) → pos_part a + neg_part b ≡ pos_part b + neg_part a → a ≡ b
eq_of_parts a b h = ground arith

pub ruleset int_laws = (arith, +ℤ_parts, -ℤ_parts, eq_of_parts)

-- Saturation brings every integer in range, and leaves alone what is in range.
pub sat_i32-IsI32 : (a : ℤ) → IsI32 (sat_i32 a)
unfolding sat_i32
sat_i32-IsI32 a = ground arith

pub sat_i32-of_IsI32 : (a : ℤ) → IsI32 a → sat_i32 a ≡ a
unfolding sat_i32
sat_i32-of_IsI32 a h = ground arith

pub sat_i64-IsI64 : (a : ℤ) → IsI64 (sat_i64 a)
unfolding sat_i64
sat_i64-IsI64 a = ground arith

pub sat_i64-of_IsI64 : (a : ℤ) → IsI64 a → sat_i64 a ≡ a
unfolding sat_i64
sat_i64-of_IsI64 a h = ground arith

pub sat_i64-mono : (a b : ℤ) → a ≤ℤ b → sat_i64 a ≤ℤ sat_i64 b
unfolding sat_i64
sat_i64-mono a b h = ground arith
