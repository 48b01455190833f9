-- ===== src/Blocks.antt =====
-- crates/db-sim-core/src/blocks.rs: destructible blocks, whose solid columns follow from their health.
pub mod Columns
pub mod Erosion
use dungeon_barrage.Base.{
  ℕ, zero, suc, ◌+◌, ◌-◌, ◌*◌, ◌/◌, ◌%◌, ◌^◌, Bool, true, false, not, ◌&&◌, ◌||◌, List, [], ◌∷◌,
  map, filter, Option, none, some, if◌then◌else◌, ltb, leb, ◌==◌, min, get_or, set, replicate, ℤ,
  pos, negsuc, ◌+ℤ◌, ◌-ℤ◌, ltb_ℤ, sat_i32, sat_i64,
}
use dungeon_barrage.Base.Opt.{◌>>=◌}
use dungeon_barrage.Fixed.{scale, basis_points}
use dungeon_barrage.Types.Terrain.{Material, empty, is_solid, TerrainMask, TerrainBlock}
use dungeon_barrage.Terrain.{material_at, set_material}

abbrev pub checked_u64 : ℕ → Option ℕ
checked_u64 n = if ltb n (2 ^ 64) then some n else none

unfoldable pub ceil_div_u64 : ℕ → ℕ → Option ℕ
ceil_div_u64 numerator denominator =
    if denominator == 0
    then none
    else (do adjusted ← checked_u64 (numerator + (denominator - 1)); some (adjusted / denominator))

-- The final cast to u16 keeps the low 16 bits.
unfoldable pub solid_columns : TerrainBlock → ℕ
unfolding ceil_div_u64
solid_columns block =
    if block.width_cells == 0 || (block.health == 0 || block.max_health == 0)
    then 0
    else elim (checked_u64 (block.width_cells * block.health)) [
      | none ↦ 0
      | some product ↦ elim (ceil_div_u64 product block.max_health) [
        | none ↦ 0
        | some columns ↦ min columns block.width_cells % 2 ^ 16
      ]
    ]

unfoldable pub absolute_column_x : TerrainBlock → ℕ → ℤ
unfolding sat_i32 ◌+ℤ◌
absolute_column_x block local_column = sat_i32 (block.origin_cell_x +ℤ pos local_column)

abbrev pub unsigned_abs : ℤ → ℕ
unsigned_abs (pos n) = n
unsigned_abs (negsuc n) = suc n

unfoldable pub erosion_rank : TerrainBlock → ℕ → Option ℤ → ℕ
unfolding absolute_column_x sat_i64 ◌-ℤ◌
erosion_rank block local_column (some impact_x) =
    unsigned_abs (sat_i64 (absolute_column_x block local_column -ℤ impact_x))
erosion_rank block local_column none = min local_column ((block.width_cells - 1) - local_column)

-- A column with its rank and its absolute place, in the order of triples.
abbrev pub Ranked : Type 0
Ranked = ℕ × ℤ × ℕ

unfoldable pub ranked_before : Ranked → Ranked → Bool
ranked_before (r, x, l) (s, y, k) =
    ltb r s || (r == s && (ltb_ℤ x y || (not (ltb_ℤ y x) && ltb l k)))

unfoldable pub insert_ranked : Ranked → List Ranked → List Ranked
unfolding ranked_before
insert_ranked c [] = c ∷ []
insert_ranked c (d ∷ ds) = if ranked_before d c then d ∷ insert_ranked c ds else c ∷ d ∷ ds

unfoldable pub sort_ranked : List Ranked → List Ranked
unfolding insert_ranked
sort_ranked [] = []
sort_ranked (c ∷ cs) = insert_ranked c (sort_ranked cs)

-- The numbers from `lo` on, `n` of them.
unfoldable pub numbers : ℕ → ℕ → List ℕ
numbers lo zero = []
numbers lo (suc n) = lo ∷ numbers (suc lo) n

-- The loop that marks the first columns of the ranking.
unfoldable pub mark_eroded : ℕ → List Ranked → List Bool → List Bool
mark_eroded zero ranked eroded = eroded
mark_eroded (suc n) [] eroded = eroded
mark_eroded (suc n) ((_, _, local) ∷ ranked) eroded = mark_eroded n ranked (set eroded local true)

unfoldable pub eroded_columns : TerrainBlock → Option ℤ → List Bool
unfolding erosion_rank absolute_column_x sort_ranked numbers mark_eroded
eroded_columns block impact_cell_x =
    let width = block.width_cells in
    let eroded = replicate width false in
    let solid = solid_columns block in
    if width == 0
    then eroded
    else if leb width solid
    then eroded
    else if solid == 0
    then replicate width true
    else let ranked =
        map
          (λ local. (erosion_rank block local impact_cell_x, absolute_column_x block local, local))
          (numbers 0 width) in
      mark_eroded (width - solid) (sort_ranked ranked) eroded

unfoldable pub surviving_columns : TerrainBlock → Option ℤ → List ℤ
unfolding eroded_columns absolute_column_x numbers
surviving_columns block impact_cell_x =
    let eroded = eroded_columns block impact_cell_x in
    map (absolute_column_x block)
      (filter (λ local. not (get_or eroded local true)) (numbers 0 block.width_cells))

-- One cell of a column: the mask after the write, and the count of cleared cells in a u32.
unfoldable pub write_cell : TerrainBlock → Bool → ℤ → ℕ → TerrainMask × ℕ → TerrainMask × ℕ
unfolding material_at set_material is_solid sat_i32 ◌+ℤ◌
write_cell block is_eroded abs_x local_y (mask, cleared) =
    let abs_y = sat_i32 (block.origin_cell_y +ℤ pos local_y) in
    let previously_solid = is_solid (material_at mask abs_x abs_y) in
    let (mask', wrote) =
      set_material mask abs_x abs_y (if is_eroded then empty else block.material) in
    (
      mask',
      if wrote && (is_eroded && previously_solid) then min (cleared + 1) (2 ^ 32 - 1) else cleared,
    )

unfoldable pub write_column : TerrainBlock → Bool → ℤ → List ℕ → TerrainMask × ℕ → TerrainMask × ℕ
unfolding write_cell
write_column block is_eroded abs_x [] r = r
write_column block is_eroded abs_x (y ∷ ys) r =
    write_column block is_eroded abs_x ys (write_cell block is_eroded abs_x y r)

unfoldable pub write_columns : TerrainBlock → List Bool → List ℕ → TerrainMask × ℕ → TerrainMask × ℕ
unfolding write_column absolute_column_x numbers
write_columns block eroded [] r = r
write_columns block eroded (x ∷ xs) r = write_columns block eroded xs (
    write_column block (get_or eroded x true) (absolute_column_x block x)
      (numbers 0 block.height_cells) r)

unfoldable pub apply_to_mask : TerrainMask → TerrainBlock → Option ℤ → TerrainMask × ℕ
unfolding eroded_columns write_columns numbers
apply_to_mask mask block impact_cell_x =
    write_columns block (eroded_columns block impact_cell_x) (numbers 0 block.width_cells) (mask, 0)

-- The damaged block, and the damage that it absorbed.
unfoldable pub damage_block : TerrainBlock → ℕ → TerrainBlock × ℕ
damage_block block amount =
    (record block { health = block.health - amount }, min amount block.health)

unfoldable pub health_basis_points : TerrainBlock → ℤ
unfolding scale
health_basis_points block =
    if block.max_health == 0
    then pos 0
    else elim (scale (pos block.health) (pos basis_points) (pos block.max_health)) [
      | none ↦ pos 0
      | some points ↦ points
    ]
