-- ===== src/Terrain.antt =====
-- crates/db-sim-core/src/terrain.rs: the cells of the terrain, read, written and carved out.
-- A `usize` is a number below 2 ^ 64.
pub mod Cells
pub mod Carve
pub mod Circle
pub mod Operation
use dungeon_barrage.Base.{
  ℕ, zero, suc, ◌+◌, ◌-◌, ◌*◌, ◌^◌, Bool, true, false, ◌&&◌, ◌||◌, List, [], ◌∷◌, Option, none,
  some, if◌then◌else◌, ltb, leb, ◌==◌, min, length, get_or, set, replicate, text, ℤ, pos, negsuc,
  pos_part, ◌+ℤ◌, ◌-ℤ◌, ◌*ℤ◌, leb_ℤ, ltb_ℤ, min_ℤ, max_ℤ, sat_i32, sat_i64,
}
use dungeon_barrage.Base.Opt.{◌>>=◌}
use dungeon_barrage.Fixed.{FixedPoint, to_cells}
use dungeon_barrage.Error.{SimResult, ok, err, out_of_range}
use dungeon_barrage.Types.Terrain.{
  Material, empty, to_byte, from_byte, is_solid, TerrainMask, MaterialMask, permits,
  TerrainOperation, TerrainShape,
}

unfoldable pub create_mask : ℕ → ℕ → Material → SimResult TerrainMask
unfolding to_byte
create_mask width height fill =
    if width == 0 || height == 0
    then err (out_of_range (text "terrain dimensions"))
    else if leb (2 ^ 32) (width * height)
    then err (out_of_range (text "terrain cell count"))
    else ok (record {
      width = width;
      height = height;
      cells = replicate (width * height) (to_byte fill);
    })

abbrev pub checked_usize : ℕ → Option ℕ
checked_usize n = if ltb n (2 ^ 64) then some n else none

-- The bounds checks of a cell, and its index in the rows.
unfoldable pub cell_index : TerrainMask → ℤ → ℤ → Option ℕ
cell_index mask x_cell y_cell =
    if ltb_ℤ x_cell (pos 0) || ltb_ℤ y_cell (pos 0)
    then none
    else if leb mask.width (pos_part x_cell) || leb mask.height (pos_part y_cell)
    then none
    else (do
      row_offset ← checked_usize (pos_part y_cell * mask.width)
      checked_usize (row_offset + pos_part x_cell))

unfoldable pub material_at : TerrainMask → ℤ → ℤ → Material
unfolding cell_index from_byte
material_at mask x_cell y_cell = elim (cell_index mask x_cell y_cell) [
  | none ↦ empty
  | some index ↦ from_byte (get_or mask.cells index 0)
]

-- The mask after the write, and whether there was a cell to write.
unfoldable pub set_material : TerrainMask → ℤ → ℤ → Material → TerrainMask × Bool
unfolding cell_index to_byte
set_material mask x_cell y_cell material = elim (cell_index mask x_cell y_cell) [
  | none ↦ (mask, false)
  | some index ↦
      if ltb index (length mask.cells)
      then (record mask { cells = set mask.cells index (to_byte material) }, true)
      else (mask, false)
]

unfoldable pub is_solid_at : TerrainMask → FixedPoint → Bool
unfolding to_cells material_at is_solid
is_solid_at mask p = let (x_cell, y_cell) = to_cells p in is_solid (material_at mask x_cell y_cell)

-- `i32::try_from(dim).unwrap_or(i32::MAX).saturating_sub(1)`.
unfoldable pub last_valid_index : ℕ → ℤ
unfolding ◌-ℤ◌ sat_i32
last_valid_index dim = sat_i32 (pos (min dim (2 ^ 31 - 1)) -ℤ pos 1)

-- The numbers of an inclusive range.
unfoldable pub count_from : ℤ → ℕ → List ℤ
unfolding ◌+ℤ◌
count_from x zero = []
count_from x (suc n) = x ∷ count_from (x +ℤ pos 1) n

unfoldable pub inclusive : ℤ → ℤ → List ℤ
unfolding count_from ◌-ℤ◌ ◌+ℤ◌
inclusive lo hi = count_from lo (pos_part ((hi -ℤ lo) +ℤ pos 1))

-- One side of the bounding box, clamped to the mask.
unfoldable pub clamped_range : ℤ → ℤ → ℤ → ℕ → List ℤ
unfolding sat_i32 ◌-ℤ◌ ◌+ℤ◌ last_valid_index inclusive
clamped_range low high radius dim =
    inclusive (max_ℤ (sat_i32 (low -ℤ radius)) (pos 0))
      (min_ℤ (sat_i32 (high +ℤ radius)) (last_valid_index dim))

-- The body of both carving loops: a cell of the shape is emptied if it is solid and permitted, and
-- counted in a u32.
unfoldable pub carve_cell :
    (ℤ → ℤ → Bool) → MaterialMask → ℤ → ℤ → TerrainMask × ℕ → TerrainMask × ℕ
unfolding material_at set_material is_solid permits
carve_cell shape m x y (mask, removed) =
    let current_material = material_at mask x y in
    if shape x y && (is_solid current_material && permits m current_material)
    then ((set_material mask x y empty).0, min (removed + 1) (2 ^ 32 - 1))
    else (mask, removed)

unfoldable pub carve_row :
    (ℤ → ℤ → Bool) → MaterialMask → ℤ → List ℤ → TerrainMask × ℕ → TerrainMask × ℕ
unfolding carve_cell
carve_row shape m y [] r = r
carve_row shape m y (x ∷ xs) r = carve_row shape m y xs (carve_cell shape m x y r)

unfoldable pub carve_rows :
    (ℤ → ℤ → Bool) → MaterialMask → List ℤ → List ℤ → TerrainMask × ℕ → TerrainMask × ℕ
unfolding carve_row
carve_rows shape m xs [] r = r
carve_rows shape m xs (y ∷ ys) r = carve_rows shape m xs ys (carve_row shape m y xs r)

-- A sum of two squares, as the source saturates it.
unfoldable pub square_sum : ℤ → ℤ → ℤ
unfolding sat_i64 ◌+ℤ◌ ◌*ℤ◌
square_sum dx dy = sat_i64 (sat_i64 (dx *ℤ dx) +ℤ sat_i64 (dy *ℤ dy))

unfoldable pub point_in_circle : ℤ → ℤ → ℤ → ℤ → ℤ → Bool
unfolding square_sum sat_i64 ◌-ℤ◌
point_in_circle center_x center_y radius_squared x y =
    leb_ℤ (square_sum (sat_i64 (x -ℤ center_x)) (sat_i64 (y -ℤ center_y))) radius_squared

unfoldable pub subtract_circle : TerrainMask → FixedPoint → ℕ → MaterialMask → TerrainMask × ℕ
unfolding to_cells sat_i64 ◌*ℤ◌ clamped_range carve_rows point_in_circle
subtract_circle mask center radius_cells material_mask =
    let (center_x, center_y) = to_cells center in
    let radius = pos radius_cells in
    let radius_squared = sat_i64 (radius *ℤ radius) in
    carve_rows (point_in_circle center_x center_y radius_squared) material_mask
      (clamped_range center_x center_x radius mask.width)
      (clamped_range center_y center_y radius mask.height) (mask, 0)

abbrev pub is_zero : ℤ → Bool
is_zero (pos n) = n == 0
is_zero (negsuc n) = false

unfoldable pub point_in_capsule : ℤ → ℤ → ℤ → ℤ → ℤ → ℤ → ℤ → Bool
unfolding square_sum sat_i64 ◌-ℤ◌ ◌*ℤ◌ ◌+ℤ◌
point_in_capsule px py start_x start_y end_x end_y radius_squared =
    let line_x = sat_i64 (end_x -ℤ start_x) in
    let line_y = sat_i64 (end_y -ℤ start_y) in
    let point_x = sat_i64 (px -ℤ start_x) in
    let point_y = sat_i64 (py -ℤ start_y) in
    let length_squared = square_sum line_x line_y in
    let dot = sat_i64 (sat_i64 (point_x *ℤ line_x) +ℤ sat_i64 (point_y *ℤ line_y)) in
    if is_zero length_squared
    then leb_ℤ (square_sum point_x point_y) radius_squared
    else if leb_ℤ dot (pos 0)
    then leb_ℤ (square_sum point_x point_y) radius_squared
    else if leb_ℤ length_squared dot
    then leb_ℤ (square_sum (sat_i64 (px -ℤ end_x)) (sat_i64 (py -ℤ end_y))) radius_squared
    else let cross = sat_i64 (sat_i64 (point_x *ℤ line_y) -ℤ sat_i64 (point_y *ℤ line_x)) in
      leb_ℤ (sat_i64 (cross *ℤ cross)) (sat_i64 (radius_squared *ℤ length_squared))

unfoldable pub subtract_capsule :
    TerrainMask → FixedPoint → FixedPoint → ℕ → MaterialMask → TerrainMask × ℕ
unfolding to_cells sat_i64 ◌*ℤ◌ clamped_range carve_rows point_in_capsule
subtract_capsule mask start end radius_cells material_mask =
    let (start_x, start_y) = to_cells start in
    let (end_x, end_y) = to_cells end in
    let radius = pos radius_cells in
    let radius_squared = sat_i64 (radius *ℤ radius) in
    carve_rows (λ x y. point_in_capsule x y start_x start_y end_x end_y radius_squared)
      material_mask (clamped_range (min_ℤ start_x end_x) (max_ℤ start_x end_x) radius mask.width)
      (clamped_range (min_ℤ start_y end_y) (max_ℤ start_y end_y) radius mask.height) (mask, 0)

-- The mask after the operation, and how many cells it emptied.
unfoldable pub apply_operation : TerrainMask → TerrainOperation → TerrainMask × ℕ
unfolding subtract_circle subtract_capsule
apply_operation mask operation = elim operation.shape [
  | TerrainShape.subtract_circle center radius_cells ↦
      subtract_circle mask center radius_cells operation.material_mask
  | TerrainShape.subtract_capsule start end radius_cells ↦
      subtract_capsule mask start end radius_cells operation.material_mask
]
