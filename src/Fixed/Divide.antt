-- ===== src/Fixed/Divide.antt =====
-- `round_divide` and `scale` of crates/db-sim-core/src/fixed.rs: rounding and overflow.
use dungeon_barrage.Base.{
  ℕ, suc, ◌+◌, ◌*◌, ◌/◌, ◌^◌, ◌≤◌, ◌<◌, ◌≡◌, refl, ◌⊎◌, none, some, true, arith, ℤ, pos, negsuc,
  pos_part, sub_ℕ, ◌∙◌, ap, sym, ◌*ℤ◌, neg, ◌≤ℤ◌, checked_i64, in_i32, IsI32, if◌then◌else◌,
}
use dungeon_barrage.Fixed.{round_divide_by, round_divide, scale, apply_basis_points, basis_points}

-- The size of an integer.
abbrev pub abs : ℤ → ℕ
abs (pos n) = n
abs (negsuc n) = suc n

-- The integer of size `k` with the sign of `n`.
abbrev pub with_sign : ℤ → ℕ → ℤ
with_sign (pos n) k = pos k
with_sign (negsuc n) k = sub_ℕ 0 k

-- `q` is `n / d` rounded to the nearest integer, a tie away from zero.
pub record IsNearest (n : ℤ) (d : ℕ) (q : ℤ) : Type 0 where
  pub at_most : 2 * (abs q * d) ≤ 2 * abs n + d
  pub at_least : 2 * abs n < 2 * (abs q * d) + d
  pub signed : q ≡ with_sign n (abs q)

near_unique : (m d j k : ℕ) → 2 * (j * d) ≤ 2 * m + d → 2 * m < 2 * (k * d) + d → j ≤ k
near_unique m d j k a b = grind arith

-- There is at most one such integer.
pub IsNearest-unique : (n : ℤ) (d : ℕ) (p q : ℤ) → IsNearest n d p → IsNearest n d q → p ≡ q
IsNearest-unique n d p q a b =
    let e : abs p ≡ abs q = omega (
      arith,
      near_unique (abs n) d (abs p) (abs q) a.at_most b.at_least,
      near_unique (abs n) d (abs q) (abs p) b.at_most a.at_least,
    ) in
    a.signed ∙ ap (with_sign n) e ∙ sym b.signed

half_up_le : (m d : ℕ) → 0 < d → 2 * ((m + d / 2) / d * d) ≤ 2 * m + d
half_up_le m d h = omega arith

half_up_lt : (m d : ℕ) → 0 < d → 2 * m < 2 * ((m + d / 2) / d * d) + d
half_up_lt m d h = omega arith

div-le : (a d : ℕ) → 0 < d → a / d ≤ a
div-le a d h = grind arith

round_divide_by-neg :
    (n d : ℕ)
    → 0 < d
    → suc n + d / 2 < 2 ^ 63
    → round_divide_by (negsuc n) d ≡ some (neg (pos ((suc n + d / 2) / d)))
unfolding round_divide_by
round_divide_by-neg n d p h = ground (arith, div-le (suc n + d / 2) d p)

round_divide_by-pos :
    (n d : ℕ)
    → 0 < d
    → n + d / 2 < 2 ^ 63
    → round_divide_by (pos n) d ≡ some (pos ((n + d / 2) / d))
unfolding round_divide_by
round_divide_by-pos n d p h = ground arith

IsNearest-pos : (n d : ℕ) → 0 < d → IsNearest (pos n) d (pos ((n + d / 2) / d))
IsNearest-pos n d p = record {
  at_most = half_up_le n d p;
  at_least = half_up_lt n d p;
  signed = refl;
}

IsNearest-neg : (n d k : ℕ) → k ≡ (suc n + d / 2) / d → 0 < d → IsNearest (negsuc n) d (neg (pos k))
unfolding neg
IsNearest-neg n d k e p = ground (arith, half_up_le (suc n) d p, half_up_lt (suc n) d p)

-- Where the denominator is positive and the shifted numerator fits an i64, the divide gives the
-- nearest integer, a tie away from zero.
pub round_divide-IsNearest :
    (n : ℤ) (d : ℕ)
    → 0 < d
    → abs n + d / 2 < 2 ^ 63
    → (q : ℤ) × (round_divide n (pos d) ≡ some q) × IsNearest n d q
unfolding round_divide
round_divide-IsNearest (pos n) d p h =
    (pos ((n + d / 2) / d), ground (arith, round_divide_by-pos n d p h), IsNearest-pos n d p)
round_divide-IsNearest (negsuc n) d p h = (
  neg (pos ((suc n + d / 2) / d)),
  ground (arith, round_divide_by-neg n d p h),
  IsNearest-neg n d _ refl p,
)

-- In every other case the divide returns nothing: a denominator of zero or below, and a shifted
-- numerator past the i64 range.
pub round_divide-none :
    (n d : ℤ) → (d ≤ℤ pos 0) ⊎ (2 ^ 63 ≤ abs n + pos_part d / 2) → round_divide n d ≡ none
unfolding round_divide round_divide_by
round_divide-none (pos n) (pos d) h = ground arith
round_divide-none (negsuc n) (pos d) h = ground arith
round_divide-none _ (negsuc d) h = ground arith

pub abs-*ℤ : (a b : ℤ) → abs (a *ℤ b) ≡ abs a * abs b
unfolding ◌*ℤ◌
abs-*ℤ (pos a) (pos b) = ground arith
abs-*ℤ (pos a) (negsuc b) = ground arith
abs-*ℤ (negsuc a) (pos b) = ground arith
abs-*ℤ (negsuc a) (negsuc b) = ground arith

pub abs-of_IsI32 : (a : ℤ) → IsI32 a → abs a ≤ 2 ^ 31
abs-of_IsI32 (pos a) h = omega arith
abs-of_IsI32 (negsuc a) h = omega arith

pub mul_mono : (a b c d : ℕ) → a ≤ c → b ≤ d → a * b ≤ c * d
mul_mono a b c d h k = grind arith

-- The widened product of two i32 values is far inside the i64 range.
product_small : (a b : ℤ) → IsI32 a → IsI32 b → abs (a *ℤ b) ≤ 2 ^ 62
product_small a b h k = omega (
  arith,
  abs-*ℤ a b,
  mul_mono (abs a) (abs b) (2 ^ 31) (2 ^ 31) (abs-of_IsI32 a h) (abs-of_IsI32 b k),
)

checked_i64-small : (a : ℤ) → abs a ≤ 2 ^ 62 → checked_i64 a ≡ some a
unfolding checked_i64
checked_i64-small (pos a) h = ground arith
checked_i64-small (negsuc a) h = ground arith

-- For i32 inputs and a positive denominator the scaled divide never overflows on the way: it is
-- the nearest integer to the true ratio, dropped only if that itself is no i32.
pub scale_lem :
    (v m : ℤ) (d : ℕ)
    → IsI32 v
    → IsI32 m
    → IsI32 (pos d)
    → 0 < d
    → (q : ℤ) × IsNearest (v *ℤ m) d q × (scale v m (pos d) ≡ (if in_i32 q then some q else none))
unfolding scale
scale_lem v m d hv hm hd p =
    let small = product_small v m hv hm in
    let (q, e, near) = round_divide-IsNearest (v *ℤ m) d p (omega (arith, small)) in
    (q, near, rw (checked_i64-small (v *ℤ m) small) (rw e refl))

shrink : (v b q d : ℕ) → b ≤ d → 2 * (q * d) ≤ 2 * (v * b) + d → 0 < d → q ≤ v
shrink v b q d h k p = grind arith

fits :
    (v q : ℤ) (b : ℕ)
    → IsI32 v
    → abs q ≤ abs v
    → 2 * (abs q * basis_points) ≤ 2 * abs (v *ℤ pos b) + basis_points
    → q ≡ with_sign (v *ℤ pos b) (abs q)
    → in_i32 q ≡ true
unfolding ◌*ℤ◌
fits (pos v) q b i h k s = ground arith
fits (negsuc v) q b i h k s = ground arith

-- A factor of at most 10,000 basis points always gives a result: the nearest integer, of the sign
-- of the value and no larger than it.
pub apply_basis_points_lem :
    (v : ℤ) (bp : ℕ)
    → IsI32 v
    → bp ≤ basis_points
    → (q : ℤ) × (apply_basis_points v (pos bp) ≡ some q)
      × IsNearest (v *ℤ pos bp) basis_points q
      × (abs q ≤ abs v)
unfolding apply_basis_points
apply_basis_points_lem v bp hv h =
    let (q, near, e) =
      scale_lem v (pos bp) basis_points hv (omega arith) (omega arith) (omega arith) in
    let le =
      shrink (abs v) bp (abs q) basis_points h (omega (arith, near.at_most, abs-*ℤ v (pos bp)))
        (omega arith) in
    (q, rw e (rw (fits v q bp hv le near.at_most near.signed)), near, le)
