-- ===== src/Fixed/Cells.antt =====
-- Positions and whole terrain cells in crates/db-sim-core/src/fixed.rs, and the clamp.
use dungeon_barrage.Base.{
  ◌≡◌, some, arith, ℤ, pos, negsuc, ◌+ℤ◌, ◌*ℤ◌, ◌≤ℤ◌, div_euclid, IsI32, max_ℤ, min_ℤ, ◌-ℤ◌,
  sat_i32-IsI32,
}
use dungeon_barrage.Fixed.{
  FixedPoint, from_cells, to_cells, saturating_add, saturating_sub, clamp, position_scale,
}

scaled : (a : ℤ) → div_euclid (a *ℤ pos position_scale) position_scale ≡ a
unfolding div_euclid ◌*ℤ◌
scaled (pos a) = ground arith
scaled (negsuc a) = ground arith

-- A position made from whole cells lies in those cells.
pub to_cells-from_cells : (x y : ℤ) {p : FixedPoint} → from_cells x y ≡ some p → to_cells p ≡ (x, y)
unfolding from_cells to_cells
to_cells-from_cells x y h = ground (arith, scaled x, scaled y)

-- `c` is the cell of width 1024 that holds the coordinate `a`.
abbrev pub IsPoint : FixedPoint → Type 0
IsPoint p = IsI32 p.x × IsI32 p.y

abbrev pub Holds : ℤ → ℤ → Type 0
Holds c a = (c *ℤ pos position_scale ≤ℤ a) × (a +ℤ pos 1 ≤ℤ (c +ℤ pos 1) *ℤ pos position_scale)

Holds-div_euclid : (a : ℤ) → Holds (div_euclid a position_scale) a
unfolding div_euclid ◌*ℤ◌ ◌+ℤ◌
Holds-div_euclid (pos a) = ground arith
Holds-div_euclid (negsuc a) = ground arith

-- Each coordinate lies in the cell that it is given, also left of and above the origin: every cell
-- is 1024 units wide.
pub to_cells-Holds : (p : FixedPoint) → Holds (to_cells p).0 p.x × Holds (to_cells p).1 p.y
unfolding to_cells
to_cells-Holds p = (Holds-div_euclid p.x, Holds-div_euclid p.y)

-- The clamp is the larger of the lower bound and the smaller of value and upper bound: within
-- ordered bounds it moves the value no further than needed, and inverted bounds give the lower.
pub clamp_lem : (v lo hi : ℤ) → clamp v lo hi ≡ max_ℤ lo (min_ℤ v hi)
unfolding clamp
clamp_lem v lo hi = ground arith

-- Component-wise addition and subtraction never leave the i32 range, whatever they are given.
pub saturating-IsPoint :
    (p q : FixedPoint) → IsPoint (saturating_add p q) × IsPoint (saturating_sub p q)
unfolding saturating_add saturating_sub
saturating-IsPoint p q = (
  (sat_i32-IsI32 (p.x +ℤ q.x), sat_i32-IsI32 (p.y +ℤ q.y)),
  (sat_i32-IsI32 (p.x -ℤ q.x), sat_i32-IsI32 (p.y -ℤ q.y)),
)
