-- ===== src/Resolve/TerrainDamage.antt =====
-- crates/db-sim-core/src/resolve/terrain_damage.rs: damage to all blocks around an impact.
pub mod Falloff
use dungeon_barrage.Base.{
  ℕ, ◌+◌, ◌-◌, ◌^◌, Bool, not, ◌&&◌, ◌||◌, List, [], ◌∷◌, get_elem?, set, none, some, if◌then◌else◌,
  ◌==◌, min, ℤ, pos, pos_part, ◌+ℤ◌, ◌-ℤ◌, ◌*ℤ◌, leb_ℤ, ltb_ℤ, max_ℤ, in_i32, sat_i64, div_trunc,
}
use dungeon_barrage.Fixed.{
  FixedPoint, position_scale, basis_points, apply_basis_points, to_cells, clamp,
}
use dungeon_barrage.Types.Terrain.{TerrainBlock, MaterialMask, permits}
use dungeon_barrage.Blocks.{damage_block, apply_to_mask}
use dungeon_barrage.BlockOps.Operation.{Field, visiting_order}

-- The distance to the nearest point of the rectangle of a block. The two bounds are in order, so that
-- the clamp of i64 is that of the positions.
unfoldable pub block_distance_squared : TerrainBlock → FixedPoint → ℤ
unfolding sat_i64 ◌+ℤ◌ ◌-ℤ◌ ◌*ℤ◌ clamp
block_distance_squared block impact =
    let scale = pos position_scale in
    let left = sat_i64 (block.origin_cell_x *ℤ scale) in
    let top = sat_i64 (block.origin_cell_y *ℤ scale) in
    let right = sat_i64 (left +ℤ sat_i64 (pos block.width_cells *ℤ scale)) in
    let bottom = sat_i64 (top +ℤ sat_i64 (pos block.height_cells *ℤ scale)) in
    let dx = sat_i64 (clamp impact.x left right -ℤ impact.x) in
    let dy = sat_i64 (clamp impact.y top bottom -ℤ impact.y) in
    sat_i64 (sat_i64 (dx *ℤ dx) +ℤ sat_i64 (dy *ℤ dy))

-- `u16::try_from(n.max(0)).unwrap_or(u16::MAX)`.
abbrev pub cap_u16 : ℤ → ℕ
cap_u16 n = min (pos_part n) (2 ^ 16 - 1)

unfoldable pub falloff_amount : ℕ → ℤ → ℤ → ℕ
unfolding sat_i64 ◌*ℤ◌ ◌-ℤ◌ div_trunc apply_basis_points
falloff_amount amount distance_sq radius =
    let radius_sq = max_ℤ (sat_i64 (radius *ℤ radius)) (pos 1) in
    let remaining_sq = sat_i64 (radius_sq -ℤ distance_sq) in
    let ratio = div_trunc (sat_i64 (remaining_sq *ℤ pos basis_points)) (pos_part radius_sq) in
    if leb_ℤ radius (pos 0)
    then amount
    else elim (apply_basis_points (pos amount) (if in_i32 ratio then ratio else pos basis_points)) [
      | none ↦ 0
      | some scaled ↦ cap_u16 scaled
    ]

-- What is dealt to a block: nothing past the radius, which is no limit from zero down.
unfoldable pub dealt_amount : FixedPoint → ℤ → ℕ → Bool → MaterialMask → TerrainBlock → ℕ
unfolding block_distance_squared falloff_amount sat_i64 ◌*ℤ◌ permits
dealt_amount impact radius amount falloff material_mask block =
    let distance_sq = block_distance_squared block impact in
    if (block.width_cells == 0 || block.height_cells == 0)
      || (not (permits material_mask block.material)
          || (ltb_ℤ (pos 0) radius && ltb_ℤ (sat_i64 (radius *ℤ radius)) distance_sq))
    then 0
    else if falloff
    then falloff_amount amount distance_sq radius
    else amount

-- The body of the loop, with the count of cleared cells.
unfoldable pub damage_at : FixedPoint → (TerrainBlock → ℕ) → Field × ℕ → ℕ → Field × ℕ
unfolding to_cells damage_block apply_to_mask
damage_at impact dealt ((mask, blocks), total_cleared) index = elim (get_elem? blocks index) [
  | none ↦ ((mask, blocks), total_cleared)
  | some block ↦
      let hurt = (damage_block block (dealt block)).0 in
      let (drawn, cleared) = apply_to_mask mask hurt (some (to_cells impact).0) in
      if dealt block == 0
      then ((mask, blocks), total_cleared)
      else ((drawn, set blocks index hurt), min (total_cleared + cleared) (2 ^ 32 - 1))
]

unfoldable pub damage_each : FixedPoint → (TerrainBlock → ℕ) → List ℕ → Field × ℕ → Field × ℕ
unfolding damage_at
damage_each impact dealt [] r = r
damage_each impact dealt (index ∷ order) r =
    damage_each impact dealt order (damage_at impact dealt r index)

unfoldable pub damage_blocks_in_radius :
    Field → FixedPoint → ℤ → ℕ → Bool → MaterialMask → Field × ℕ
unfolding dealt_amount damage_each visiting_order
damage_blocks_in_radius field impact radius amount falloff material_mask =
    damage_each impact (dealt_amount impact radius amount falloff material_mask)
      (visiting_order field.1) (field, 0)
