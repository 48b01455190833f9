-- ===== src/Resolve/TerrainDamage/Falloff.antt =====
-- The falloff of crates/db-sim-core/src/resolve/terrain_damage.rs within its radius.
use dungeon_barrage.Base.{
  ℕ, ◌-◌, ◌*◌, ◌/◌, ◌^◌, ◌<◌, ◌≤◌, ◌≡◌, true, false, min, arith, ℤ, pos, negsuc, ◌-ℤ◌, ◌*ℤ◌, max_ℤ,
  leb_ℤ, sat_i64, div_trunc, in_i32,
}
use dungeon_barrage.Fixed.{basis_points}
use dungeon_barrage.Fixed.Divide.{abs, apply_basis_points_lem}
use dungeon_barrage.Resolve.TerrainDamage.{falloff_amount, cap_u16}

square_small : (r : ℕ) → r < 2 ^ 31 → r * r < 2 ^ 62
square_small r h = grind arith

square_pos : (r : ℕ) → 0 < r → 0 < r * r
square_pos r h = grind arith

square_eq : (r : ℕ) → 0 < r → r < 2 ^ 31 → max_ℤ (sat_i64 (pos r *ℤ pos r)) (pos 1) ≡ pos (r * r)
unfolding sat_i64 ◌*ℤ◌
square_eq r p h = ground (arith, square_small r h, square_pos r p)

-- The share of the squared radius that is left, in basis points.
abbrev share : ℕ → ℕ → ℕ
share n s = min ((s - n) * basis_points) (2 ^ 63 - 1) / s

share_eq :
    (n s : ℕ)
    → n ≤ s
    → s < 2 ^ 62
    → div_trunc (sat_i64 (sat_i64 (pos s -ℤ pos n) *ℤ pos basis_points)) s ≡ pos (share n s)
unfolding sat_i64 ◌-ℤ◌ ◌*ℤ◌ div_trunc
share_eq n s h k = ground arith

share_le : (n s : ℕ) → 0 < s → share n s ≤ basis_points
share_le n s h = quotient_le (min ((s - n) * basis_points) (2 ^ 63 - 1)) s h (omega arith)
  where
    quotient_le : (m s : ℕ) → 0 < s → m ≤ s * 10_000 → m / s ≤ 10_000
    quotient_le m s h k = grind arith

capped : (q : ℤ) (amount : ℕ) → abs q ≤ amount → cap_u16 q ≤ amount
capped (pos n) amount h = omega (arith, h)
capped (negsuc n) amount h = omega arith

-- Within a positive i32 radius the falloff of a 16-bit amount is never more than the amount.
pub falloff_amount-le :
    (amount n r : ℕ)
    → amount < 2 ^ 16
    → 0 < r
    → r < 2 ^ 31
    → n ≤ r * r
    → falloff_amount amount (pos n) (pos r) ≤ amount
unfolding falloff_amount
falloff_amount-le amount n r ha p h k =
    let s = square_small r h in
    let positive : 0 < r * r = square_pos r p in
    let (q, e, _, small) =
      apply_basis_points_lem (pos amount) (share n (r * r)) (omega arith, omega (arith, ha))
        (share_le n (r * r) positive) in
    rw
      (
        falloff_amount,
        square_eq r p h,
        share_eq n (r * r) k s,
        a_radius r p,
        fits (share n (r * r)) (share_le n (r * r) positive),
        e,
      )
      (capped q amount small)
  where
    a_radius : (r : ℕ) → 0 < r → leb_ℤ (pos r) (pos 0) ≡ false
    a_radius r p = ground (arith, p)

    fits : (m : ℕ) → m ≤ basis_points → in_i32 (pos m) ≡ true
    fits m h = ground (arith, h)
