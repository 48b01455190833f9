-- ===== src/Fixed.antt =====
-- crates/db-sim-core/src/fixed.rs: fixed-point positions, the scaled divide, squared distances.
-- An i32 or i64 is an integer; a checked or saturating operation acts on the true result.
use dungeon_barrage.Base.{
  ℕ, ◌*◌, ◌/◌, Bool, Option, none, some, if◌then◌else◌, ℤ, pos, pos_part, ◌+ℤ◌, ◌-ℤ◌, ◌*ℤ◌, neg,
  leb_ℤ, ltb_ℤ, checked_i32, checked_i64, sat_i32, sat_i64, in_i32, div_euclid, div_trunc,
}
pub mod Divide
pub mod Cells
pub mod Distance
use dungeon_barrage.Base.Opt.{◌>>=◌}

abbrev pub position_scale : ℕ
position_scale = 1024

abbrev pub body_width : ℕ
body_width = 4 * position_scale

abbrev pub player_collision_radius : ℕ
player_collision_radius = body_width / 2

abbrev pub basis_points : ℕ
basis_points = 10_000

-- Positive `y` is downward.
pub record FixedPoint : Type 0 where
  pub x : ℤ
  pub y : ℤ

unfoldable pub from_cells : ℤ → ℤ → Option FixedPoint
unfolding checked_i32 ◌*ℤ◌
from_cells x y = do
  cx ← checked_i32 (x *ℤ pos position_scale)
  cy ← checked_i32 (y *ℤ pos position_scale)
  some (record { x = cx; y = cy })

unfoldable pub to_cells : FixedPoint → ℤ × ℤ
unfolding div_euclid
to_cells p = (div_euclid p.x position_scale, div_euclid p.y position_scale)

unfoldable pub saturating_add : FixedPoint → FixedPoint → FixedPoint
unfolding sat_i32 ◌+ℤ◌
saturating_add p q = record { x = sat_i32 (p.x +ℤ q.x); y = sat_i32 (p.y +ℤ q.y) }

unfoldable pub saturating_sub : FixedPoint → FixedPoint → FixedPoint
unfolding sat_i32 ◌-ℤ◌
saturating_sub p q = record { x = sat_i32 (p.x -ℤ q.x); y = sat_i32 (p.y -ℤ q.y) }

unfoldable pub player_collision_center : FixedPoint → FixedPoint
unfolding sat_i32 ◌-ℤ◌
player_collision_center p = record { x = p.x; y = sat_i32 (p.y -ℤ pos player_collision_radius) }

unfoldable pub player_collision_circle : FixedPoint → FixedPoint × ℤ
unfolding player_collision_center
player_collision_circle p = (player_collision_center p, pos player_collision_radius)

-- The two branches of the divide, for a positive denominator.
unfoldable pub round_divide_by : ℤ → ℕ → Option ℤ
unfolding checked_i64 neg ◌+ℤ◌ div_trunc
round_divide_by n d =
    if ltb_ℤ n (pos 0)
    then (do
      positive ← checked_i64 (neg n)
      shifted ← checked_i64 (positive +ℤ pos (d / 2))
      checked_i64 (neg (div_trunc shifted d)))
    else (do shifted ← checked_i64 (n +ℤ pos (d / 2)); some (div_trunc shifted d))

unfoldable pub round_divide : ℤ → ℤ → Option ℤ
unfolding round_divide_by
round_divide n d = if leb_ℤ d (pos 0) then none else round_divide_by n (pos_part d)

unfoldable pub scale : ℤ → ℤ → ℤ → Option ℤ
unfolding checked_i64 round_divide ◌*ℤ◌
scale value numerator denominator = do
  product ← checked_i64 (value *ℤ numerator)
  scaled ← round_divide product denominator
  if in_i32 scaled then some scaled else none

unfoldable pub apply_basis_points : ℤ → ℤ → Option ℤ
unfolding scale
apply_basis_points value bp = scale value bp (pos basis_points)

unfoldable pub distance_squared : FixedPoint → FixedPoint → ℤ
unfolding sat_i64 ◌-ℤ◌ ◌*ℤ◌ ◌+ℤ◌
distance_squared a b =
    let dx = sat_i64 (a.x -ℤ b.x) in
    let dy = sat_i64 (a.y -ℤ b.y) in sat_i64 (sat_i64 (dx *ℤ dx) +ℤ sat_i64 (dy *ℤ dy))

unfoldable pub within_radius : FixedPoint → FixedPoint → ℤ → Bool
unfolding sat_i64 distance_squared ◌*ℤ◌
within_radius a b radius = leb_ℤ (distance_squared a b) (sat_i64 (radius *ℤ radius))

unfoldable pub clamp : ℤ → ℤ → ℤ → ℤ
clamp value lo hi =
    if ltb_ℤ hi lo then lo else if ltb_ℤ value lo then lo else if ltb_ℤ hi value then hi else value
