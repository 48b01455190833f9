-- ===== src/BlockOps/Operation.antt =====
-- crates/db-sim-core/src/block_ops.rs: `apply_operation` and `settle_unsupported_blocks`. A loop that
-- writes to the blocks in place takes the mask and the blocks and returns them.
pub mod Worn
use dungeon_barrage.Base.{
  ℕ, zero, suc, ◌+◌, ◌-◌, ◌*◌, ◌^◌, Bool, true, false, not, ◌&&◌, ◌||◌, List, [], ◌∷◌, map,
  get_elem?, set, Option, none, some, if◌then◌else◌, ltb, ◌==◌, min, ℤ, pos, ◌+ℤ◌, ltb_ℤ, sat_i32,
  sort_by,
}
use dungeon_barrage.Fixed.{to_cells}
use dungeon_barrage.Types.Terrain.{TerrainMask, TerrainOperation, TerrainShape, TerrainBlock}
use dungeon_barrage.Types.State.{SimulationState}
use dungeon_barrage.Terrain
use dungeon_barrage.Terrain.{is_zero}
use dungeon_barrage.Blocks.{damage_block, apply_to_mask}
use dungeon_barrage.BlockOps.{
  CellRect, operation_bounds, block_bounds, rects_overlap, union_rect, count_solid,
  expected_solid_cells, proportional_damage, fall_distance,
}

-- The terrain and the blocks while a loop goes through them.
abbrev pub Field : Type 0
Field = TerrainMask × List TerrainBlock

-- The operation's bounds and those of the blocks that it touches.
unfoldable pub measured_rect : CellRect → CellRect → List TerrainBlock → CellRect
unfolding block_bounds rects_overlap union_rect
measured_rect op_rect measured [] = measured
measured_rect op_rect measured (block ∷ blocks) =
    let rect = block_bounds block in
    measured_rect op_rect
      (if rects_overlap op_rect rect then union_rect measured rect else measured) blocks

unfoldable pub impact_of : TerrainShape → ℤ
unfolding to_cells
impact_of (TerrainShape.subtract_circle center _) = (to_cells center).0
impact_of (TerrainShape.subtract_capsule _ end _) = (to_cells end).0

-- `iter().enumerate()`, from a first index on.
unfoldable pub enumerate : ℕ → List TerrainBlock → List (ℕ × TerrainBlock)
enumerate i [] = []
enumerate i (block ∷ blocks) = (i, block) ∷ enumerate (suc i) blocks

-- The indices in the order of the identifiers, and of the indices for equal ones.
unfoldable pub visiting_order : List TerrainBlock → List ℕ
unfolding enumerate sort_by
visiting_order blocks =
    map (λ entry. entry.0)
      (sort_by (λ a b. ltb a.1.id b.1.id || (a.1.id == b.1.id && ltb a.0 b.0)) (enumerate 0 blocks))

-- A block that the carve took cells of is damaged in proportion.
unfoldable pub wear_block : TerrainMask → TerrainBlock → TerrainBlock
unfolding count_solid block_bounds expected_solid_cells proportional_damage damage_block
wear_block mask block =
    let total_cells = min (block.width_cells * block.height_cells) (2 ^ 32 - 1) in
    let cleared_here = expected_solid_cells block - count_solid mask (block_bounds block) in
    if ltb 0 cleared_here
    then (damage_block block (proportional_damage block cleared_here total_cells)).0
    else block

unfoldable pub visit_block : CellRect → ℤ → Field → ℕ → Field
unfolding rects_overlap block_bounds wear_block apply_to_mask
visit_block op_rect impact_x (mask, blocks) index = elim (get_elem? blocks index) [
  | none ↦ (mask, blocks)
  | some block ↦
      let worn = wear_block mask block in
      if not (rects_overlap op_rect (block_bounds block))
        || min (block.width_cells * block.height_cells) (2 ^ 32 - 1) == 0
      then (mask, blocks)
      else ((apply_to_mask mask worn (some impact_x)).0, set blocks index worn)
]

unfoldable pub visit_blocks : CellRect → ℤ → List ℕ → Field → Field
unfolding visit_block
visit_blocks op_rect impact_x [] field = field
visit_blocks op_rect impact_x (index ∷ order) field =
    visit_blocks op_rect impact_x order (visit_block op_rect impact_x field index)

-- The indices from the lowest block in the world up, and in the order of the identifiers on one level;
-- identifiers are distinct, so that the order of equal entries does not matter.
unfoldable pub falling_order : List TerrainBlock → List ℕ
unfolding enumerate sort_by
falling_order blocks =
    map (λ entry. entry.0)
      (sort_by
        (λ a b.
          ltb_ℤ b.1.origin_cell_y a.1.origin_cell_y
          || (not (ltb_ℤ a.1.origin_cell_y b.1.origin_cell_y) && ltb a.1.id b.1.id))
        (enumerate 0 blocks))

-- A block is taken off the mask and put back lower.
unfoldable pub drop_block : Field → ℕ → TerrainBlock → ℤ → Field
unfolding apply_to_mask sat_i32 ◌+ℤ◌
drop_block (mask, blocks) index block fall =
    let cleared = (apply_to_mask mask (record block { health = 0 }) none).0 in
    let live : TerrainBlock = record block {
      origin_cell_y = sat_i32 (block.origin_cell_y +ℤ fall);
    } in
    ((apply_to_mask cleared live none).0, set blocks index live)

-- One block of a pass, with whether any has moved.
unfoldable pub settle_block : Field → ℕ → Field × Bool
unfolding fall_distance drop_block
settle_block (mask, blocks) index = elim (get_elem? blocks index) [
  | none ↦ ((mask, blocks), false)
  | some block ↦
      if block.health == 0 then ((mask, blocks), false) else elim (fall_distance mask block) [
        | none ↦ ((mask, blocks), false)
        | some fall ↦
            if is_zero fall
            then ((mask, blocks), false)
            else (drop_block (mask, blocks) index block fall, true)
      ]
]

unfoldable pub settle_pass : List ℕ → Field → Bool → Field × Bool
unfolding settle_block
settle_pass [] field moved = (field, moved)
settle_pass (index ∷ order) field moved =
    let (next, dropped) = settle_block field index in settle_pass order next (dropped || moved)

unfoldable pub settle_once : Field → Field × Bool
unfolding settle_pass falling_order
settle_once field = settle_pass (falling_order field.1) field false

abbrev pub max_passes : ℕ
max_passes = 64

unfoldable pub settle_passes : ℕ → Field → Field
unfolding settle_once
settle_passes zero field = field
settle_passes (suc n) field =
    let (next, moved) = settle_once field in if moved then settle_passes n next else next

-- The state with another terrain and other blocks.
abbrev pub with_field : SimulationState → Field → SimulationState
with_field s field = record s { terrain = field.0; blocks = field.1 }

unfoldable pub settle_unsupported_blocks : SimulationState → SimulationState
unfolding settle_passes
settle_unsupported_blocks s = with_field s (settle_passes max_passes (s.terrain, s.blocks))

unfoldable pub apply_operation : SimulationState → TerrainOperation → SimulationState × ℕ
unfolding operation_bounds measured_rect count_solid Terrain.apply_operation impact_of
    visiting_order visit_blocks settle_unsupported_blocks
apply_operation s op =
    let op_rect = operation_bounds op in
    let measured = measured_rect op_rect op_rect s.blocks in
    let before = count_solid s.terrain measured in
    let carved = (Terrain.apply_operation s.terrain op).0 in
    let field =
      visit_blocks op_rect (impact_of op.shape) (visiting_order s.blocks) (carved, s.blocks) in
    let settled = settle_unsupported_blocks (with_field s field) in
    (settled, before - count_solid settled.terrain measured)
