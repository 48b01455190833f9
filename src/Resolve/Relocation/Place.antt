-- ===== src/Resolve/Relocation/Place.antt =====
-- crates/db-sim-core/src/resolve/relocation.rs: the legal place nearest to a point, by rings of cells.
use dungeon_barrage.Base.{
  ℕ, zero, suc, ◌+◌, ◌*◌, ◌-◌, ◌^◌, Bool, false, not, ◌&&◌, List, ◌++◌, map, find, Option, none,
  some, if◌then◌else◌, ltb, min, ℤ, pos, negsuc, neg, ◌+ℤ◌, in_i32, text,
}
use dungeon_barrage.Fixed.{FixedPoint, to_cells, from_cells}
use dungeon_barrage.Error.{SimResult, ok, err, out_of_range, overflow, ok_or}
use dungeon_barrage.Types.Terrain.{TerrainMask, is_solid}
use dungeon_barrage.Terrain.{is_solid_at, material_at, count_from}

abbrev pub is_below : ℤ → ℕ → Bool
is_below (pos n) bound = ltb n bound
is_below (negsuc n) bound = false

unfoldable pub cell_in_bounds : TerrainMask → ℤ → ℤ → Bool
cell_in_bounds mask cell_x cell_y = is_below cell_x mask.width && is_below cell_y mask.height

unfoldable pub is_legal_cell : TerrainMask → ℤ × ℤ → Bool
unfolding cell_in_bounds material_at is_solid
is_legal_cell mask (x, y) = cell_in_bounds mask x y && not (is_solid (material_at mask x y))

unfoldable pub is_legal_position : TerrainMask → FixedPoint → Bool
unfolding to_cells cell_in_bounds is_solid_at
is_legal_position mask p =
    let (x, y) = to_cells p in cell_in_bounds mask x y && not (is_solid_at mask p)

-- The cells of a ring, the upper and the lower row first; a sum past the i32 range is passed over.
unfoldable pub ring_cells : ℤ → ℤ → ℕ → List (ℤ × ℤ)
unfolding neg count_from ◌+ℤ◌
ring_cells want_x want_y ring =
    let low = neg (pos ring) in
    let xs = count_from low (2 * ring + 1) in
    let ys = count_from (low +ℤ pos 1) (2 * ring - 1) in
    map (λ x. (want_x +ℤ x, want_y +ℤ low)) xs
    ++ map (λ x. (want_x +ℤ x, want_y +ℤ pos ring)) xs
    ++ map (λ y. (want_x +ℤ low, want_y +ℤ y)) ys
    ++ map (λ y. (want_x +ℤ pos ring, want_y +ℤ y)) ys

abbrev pub is_candidate : TerrainMask → ℤ × ℤ → Bool
is_candidate mask cell = in_i32 cell.0 && in_i32 cell.1 && is_legal_cell mask cell

unfoldable pub ring_search : TerrainMask → ℤ → ℤ → ℕ → Option (ℤ × ℤ)
unfolding ring_cells is_legal_cell
ring_search mask want_x want_y ring = find (is_candidate mask) (ring_cells want_x want_y ring)

-- So many rings, from one on: the first legal cell.
unfoldable pub search_rings : ℕ → TerrainMask → ℤ → ℤ → ℕ → Option (ℤ × ℤ)
unfolding ring_search
search_rings zero mask want_x want_y ring = none
search_rings (suc n) mask want_x want_y ring = elim (ring_search mask want_x want_y ring) [
  | some cell ↦ some cell
  | none ↦ search_rings n mask want_x want_y (ring + 1)
]

abbrev pub max_ring : TerrainMask → ℕ
max_ring mask = min (min (mask.width + mask.height) (2 ^ 32 - 1)) (2 ^ 31 - 1)

unfoldable pub nearest_legal_position : TerrainMask → FixedPoint → SimResult FixedPoint
unfolding is_legal_position to_cells search_rings from_cells
nearest_legal_position mask desired =
    let (want_x, want_y) = to_cells desired in
    if is_legal_position mask desired
    then ok desired
    else elim (search_rings (max_ring mask) mask want_x want_y 1) [
      | none ↦ err (out_of_range (text "relocation::teleport_destination"))
      | some cell ↦
          ok_or (from_cells cell.0 cell.1) (overflow (text "relocation::teleport_destination_cell"))
    ]
