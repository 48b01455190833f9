-- ===== src/Examples/Field.antt =====
-- The terrain at concrete inputs.
use dungeon_barrage.Base.{
  ℕ, AllAgree, ◌+◌, ◌≤◌, ◌<◌, ◌≡◌, ◌⊎◌, refl, some, [], ◌∷◌, arith, length, pos, negsuc,
}
use dungeon_barrage.Fixed.{FixedPoint}
use dungeon_barrage.Types.Terrain.{
  wood, TerrainMask, TerrainOperation, TerrainShape, soft_materials, TerrainBlock, columns,
}
use dungeon_barrage.Blocks.{solid_columns, damage_block, surviving_columns}
use dungeon_barrage.Blocks.Columns.{IsBlock, damage_block_lem}
use dungeon_barrage.Blocks.Erosion.{length-surviving_columns}
use dungeon_barrage.Terrain.{cell_index, material_at, subtract_circle, apply_operation}
use dungeon_barrage.Terrain.Carve.{carved}
use dungeon_barrage.Terrain.Circle.{in_disc, subtract_circle_lem}
use dungeon_barrage.Terrain.Operation.{Cut, apply_operation-Cut}
use dungeon_barrage.Types.State.{SimulationState}
use dungeon_barrage.BlockOps
use dungeon_barrage.BlockOps.{fall_distance}
use dungeon_barrage.BlockOps.Falls.{Falls, fall_distance-Falls}
use dungeon_barrage.BlockOps.Operation
use dungeon_barrage.BlockOps.Operation.Worn.{Worn, apply_operation-Worn}
use dungeon_barrage.Examples.Duel.{duel}

-- A crate of four columns at a third of its health.
abbrev wooden_crate : TerrainBlock
wooden_crate = record {
  id = 1;
  origin_cell_x = pos 10;
  origin_cell_y = pos 4;
  width_cells = 4;
  height_cells = 2;
  material = wood;
  health = 20;
  max_health = 60;
  erosion_axis = columns;
}

crate-IsBlock : IsBlock wooden_crate
crate-IsBlock = record {
  width = omega arith;
  full = omega arith;
  positive = omega arith;
  health = omega arith;
}

damage_block_lem_example :
    let (b, absorbed) = damage_block wooden_crate 15 in
    IsBlock b
    × (absorbed + b.health ≡ 20)
    × (absorbed ≤ 15)
    × (solid_columns b ≤ solid_columns wooden_crate)
    × ((wooden_crate.width_cells ≡ 0) ⊎ (b.health ≡ 0) ⊎ (0 < solid_columns b))
damage_block_lem_example = damage_block_lem wooden_crate 15 crate-IsBlock

length-surviving_columns_example :
    length (surviving_columns wooden_crate (some (pos 13))) ≡ solid_columns wooden_crate
length-surviving_columns_example =
    length-surviving_columns wooden_crate (some (pos 13)) crate-IsBlock

-- The run itself: the two columns nearest the hit are gone.
erosion_run : surviving_columns wooden_crate (some (pos 13)) ≡ pos 10 ∷ pos 11 ∷ []
unfolding surviving_columns solid_columns
erosion_run = refl

-- Three columns and two rows of soil, wood and stone.
abbrev ground_mask : TerrainMask
ground_mask = record { width = 3; height = 2; cells = 1 ∷ 2 ∷ 3 ∷ 1 ∷ 1 ∷ 3 ∷ [] }

abbrev middle : FixedPoint
middle = record { x = pos 1500; y = pos 700 }

abbrev blast : TerrainOperation
blast = record {
  sequence = 0;
  shape = TerrainShape.subtract_capsule middle middle 1;
  material_mask = soft_materials;
}

subtract_circle_lem_example :
    material_at (subtract_circle ground_mask middle 1 soft_materials).0 (pos 2) (pos 0)
    ≡ carved
        (in_disc middle 1 (pos 2) (pos 0))
        soft_materials
        (material_at ground_mask (pos 2) (pos 0))
subtract_circle_lem_example =
    subtract_circle_lem ground_mask middle 1 soft_materials (pos 2) (pos 0) (omega arith)
      (omega arith) (omega arith) (omega arith) (omega arith)

-- The run itself: the wood of the cell and the soil beside and below it go, stone stays.
carve_run :
    subtract_circle ground_mask middle 1 soft_materials
    ≡ (record ground_mask { cells = 0 ∷ 0 ∷ 3 ∷ 1 ∷ 0 ∷ 3 ∷ [] }, 3)
unfolding subtract_circle
carve_run = refl

apply_operation-Cut_example :
    Cut soft_materials
      (material_at ground_mask (negsuc 0) (pos 0))
      (material_at (apply_operation ground_mask blast).0 (negsuc 0) (pos 0))
apply_operation-Cut_example = apply_operation-Cut ground_mask blast (negsuc 0) (pos 0)

last_cell : cell_index ground_mask (pos 2) (pos 1) ≡ some 5
unfolding cell_index
last_cell = refl

-- A crate of one cell in the air.
abbrev small_crate : TerrainBlock
small_crate = record wooden_crate {
  origin_cell_x = pos 0;
  origin_cell_y = pos 0;
  width_cells = 1;
  height_cells = 1;
}

-- The crate over a floor, with a shot at its right end.
abbrev yard : SimulationState
yard = record duel {
  terrain = record { width = 2; height = 3; cells = 2 ∷ 0 ∷ 0 ∷ 0 ∷ 1 ∷ 1 ∷ [] };
  blocks = small_crate ∷ [];
}

abbrev shot : TerrainOperation
shot = record {
  sequence = 0;
  shape = TerrainShape.subtract_circle (record { x = pos 512; y = pos 512 }) 1;
  material_mask = soft_materials;
}

apply_operation-Worn_example :
    AllAgree Worn yard.blocks (BlockOps.Operation.apply_operation yard shot).0.blocks
    × ((BlockOps.Operation.apply_operation yard shot).0.players ≡ yard.players)
    × ((BlockOps.Operation.apply_operation yard shot).0.objects ≡ yard.objects)
apply_operation-Worn_example = apply_operation-Worn yard shot

fall_distance-Falls_example :
    (k : ℕ) × (fall_distance yard.terrain small_crate ≡ some (pos k))
    × Falls yard.terrain small_crate (pos 2) (pos 0) k
fall_distance-Falls_example =
    fall_distance-Falls yard.terrain small_crate (omega arith) (omega arith) (omega arith)
      (omega arith, omega arith) (omega arith)
