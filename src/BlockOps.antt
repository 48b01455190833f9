-- ===== src/BlockOps.antt =====
-- crates/db-sim-core/src/block_ops.rs: terrain operations through the health of blocks, and the fall of
-- blocks that nothing supports.
pub mod Cells
pub mod Falls
pub mod Operation
use dungeon_barrage.Base.{
  ℕ, zero, suc, ◌+◌, ◌-◌, ◌*◌, ◌/◌, ◌^◌, Bool, true, false, not, ◌&&◌, ◌||◌, List, [], ◌∷◌, any,
  map, length, get_elem?, set, Option, none, some, if◌then◌else◌, ltb, ◌==◌, min, ℤ, pos, pos_part,
  ◌+ℤ◌, ◌-ℤ◌, leb_ℤ, ltb_ℤ, min_ℤ, max_ℤ, sat_i32, sort_by,
}
use dungeon_barrage.Base.Opt.{◌>>=◌}
use dungeon_barrage.Fixed.{FixedPoint, to_cells}
use dungeon_barrage.Types.Terrain.{
  is_solid, TerrainMask, TerrainOperation, TerrainShape, TerrainBlock,
}
use dungeon_barrage.Types.State.{SimulationState}
use dungeon_barrage.Terrain.{material_at, is_zero, inclusive}
use dungeon_barrage.Blocks.{checked_u64, numbers, solid_columns, damage_block, apply_to_mask}

-- The least and the greatest column and row, inclusive: (min x, min y, max x, max y).
abbrev pub CellRect : Type 0
CellRect = ℤ × ℤ × ℤ × ℤ

unfoldable pub shape_bounds : TerrainShape → CellRect
unfolding to_cells sat_i32 ◌+ℤ◌ ◌-ℤ◌
shape_bounds (TerrainShape.subtract_circle center radius_cells) =
    let (cx, cy) = to_cells center in
    let r = pos radius_cells in
    (sat_i32 (cx -ℤ r), sat_i32 (cy -ℤ r), sat_i32 (cx +ℤ r), sat_i32 (cy +ℤ r))
shape_bounds (TerrainShape.subtract_capsule start end radius_cells) =
    let (sx, sy) = to_cells start in
    let (ex, ey) = to_cells end in
    let r = pos radius_cells in
    (
      sat_i32 (min_ℤ sx ex -ℤ r),
      sat_i32 (min_ℤ sy ey -ℤ r),
      sat_i32 (max_ℤ sx ex +ℤ r),
      sat_i32 (max_ℤ sy ey +ℤ r),
    )

unfoldable pub operation_bounds : TerrainOperation → CellRect
unfolding shape_bounds
operation_bounds op = shape_bounds op.shape

-- The last cell of a side.
unfoldable pub last_cell : ℤ → ℕ → ℤ
unfolding sat_i32 ◌+ℤ◌ ◌-ℤ◌
last_cell origin size = sat_i32 (sat_i32 (origin +ℤ pos size) -ℤ pos 1)

unfoldable pub block_bounds : TerrainBlock → CellRect
unfolding last_cell
block_bounds block = (
  block.origin_cell_x,
  block.origin_cell_y,
  last_cell block.origin_cell_x block.width_cells,
  last_cell block.origin_cell_y block.height_cells,
)

unfoldable pub rects_overlap : CellRect → CellRect → Bool
rects_overlap (a0, a1, a2, a3) (b0, b1, b2, b3) =
    leb_ℤ a0 b2 && (leb_ℤ b0 a2 && (leb_ℤ a1 b3 && leb_ℤ b1 a3))

unfoldable pub union_rect : CellRect → CellRect → CellRect
union_rect (a0, a1, a2, a3) (b0, b1, b2, b3) = (
  if ltb_ℤ a0 b0 then a0 else b0,
  if ltb_ℤ a1 b1 then a1 else b1,
  if ltb_ℤ b2 a2 then a2 else b2,
  if ltb_ℤ b3 a3 then a3 else b3,
)

-- The count of solid cells is a u32 that saturates.
unfoldable pub count_row : TerrainMask → ℤ → List ℤ → ℕ → ℕ
unfolding material_at is_solid
count_row mask y [] solid = solid
count_row mask y (x ∷ xs) solid =
    count_row mask y xs
      (if is_solid (material_at mask x y) then min (solid + 1) (2 ^ 32 - 1) else solid)

unfoldable pub count_rows : TerrainMask → List ℤ → List ℤ → ℕ → ℕ
unfolding count_row
count_rows mask xs [] solid = solid
count_rows mask xs (y ∷ ys) solid = count_rows mask xs ys (count_row mask y xs solid)

unfoldable pub count_solid : TerrainMask → CellRect → ℕ
unfolding count_rows inclusive
count_solid mask (min_x, min_y, max_x, max_y) =
    count_rows mask (inclusive min_x max_x) (inclusive min_y max_y) 0

unfoldable pub expected_solid_cells : TerrainBlock → ℕ
unfolding solid_columns
expected_solid_cells block = min (solid_columns block * block.height_cells) (2 ^ 32 - 1)

unfoldable pub ceil_div : ℕ → ℕ → Option ℕ
ceil_div numerator denominator =
    if denominator == 0
    then none
    else (do adjusted ← checked_u64 (numerator + (denominator - 1)); some (adjusted / denominator))

unfoldable pub proportional_damage : TerrainBlock → ℕ → ℕ → ℕ
unfolding ceil_div
proportional_damage block cleared total_cells =
    elim (ceil_div (min (block.max_health * cleared) (2 ^ 64 - 1)) total_cells) [
      | none ↦ 0
      | some scaled ↦ min scaled (2 ^ 16 - 1)
    ]

unfoldable pub in_current_footprint : TerrainBlock → ℤ → ℤ → Bool
unfolding last_cell
in_current_footprint block x y =
    leb_ℤ block.origin_cell_x x
    && (leb_ℤ x (last_cell block.origin_cell_x block.width_cells)
        && (leb_ℤ block.origin_cell_y y
            && leb_ℤ y (last_cell block.origin_cell_y block.height_cells)))

-- A cell of the new footprint that stops a fall.
unfoldable pub stops_fall : TerrainMask → TerrainBlock → ℤ → ℤ → Bool
unfolding in_current_footprint material_at is_solid
stops_fall terrain block x y =
    let map_h = if ltb terrain.height (2 ^ 31) then terrain.height else 0 in
    ltb_ℤ y (pos 0)
    || (leb_ℤ (pos map_h) y
        || (not (in_current_footprint block x y) && is_solid (material_at terrain x y)))

unfoldable pub footprint_blocked : TerrainMask → TerrainBlock → ℤ → Bool
unfolding numbers stops_fall sat_i32 ◌+ℤ◌
footprint_blocked terrain block new_origin_y =
    any
      (λ local_x.
        any
          (λ local_y.
            stops_fall terrain block (sat_i32 (block.origin_cell_x +ℤ pos local_x))
              (sat_i32 (new_origin_y +ℤ pos local_y)))
          (numbers 0 block.height_cells))
      (numbers 0 block.width_cells)

-- The loop of `fall_distance`; the fuel is what is left to the lowest origin.
unfoldable pub fall_loop : ℕ → TerrainMask → TerrainBlock → ℤ → ℤ → ℤ → ℤ
unfolding footprint_blocked sat_i32 ◌+ℤ◌
fall_loop zero terrain block max_origin fall origin_y = fall
fall_loop (suc n) terrain block max_origin fall origin_y =
    let next_y = sat_i32 (origin_y +ℤ pos 1) in
    if leb_ℤ max_origin origin_y || footprint_blocked terrain block next_y
    then fall
    else fall_loop n terrain block max_origin (sat_i32 (fall +ℤ pos 1)) next_y

unfoldable pub fall_distance : TerrainMask → TerrainBlock → Option ℤ
unfolding fall_loop sat_i32 ◌-ℤ◌
fall_distance terrain block =
    let max_origin = sat_i32 (pos terrain.height -ℤ pos block.height_cells) in
    if block.height_cells == 0
    then some (pos 0)
    else if not (ltb terrain.height (2 ^ 31))
    then none
    else if leb_ℤ max_origin block.origin_cell_y
    then some (pos 0)
    else some (
        fall_loop (pos_part (max_origin -ℤ block.origin_cell_y)) terrain block max_origin (pos 0)
          block.origin_cell_y)
