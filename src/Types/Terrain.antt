-- ===== src/Types/Terrain.antt =====
-- Terrain cells, carving operations and destructible blocks, as crates/db-sim-core/src/types.rs and
-- blocks.rs declare them. A cell is its byte.
use Prim.Native.Nat.{bit_and}
use dungeon_barrage.Base.{ℕ, ◌^◌, Bool, true, false, not, List, ◌==◌, if◌then◌else◌, ℤ}
use dungeon_barrage.Fixed.{FixedPoint}

pub data Material : Type 0 where
  empty soil wood reinforced_stone : Material

-- `material as u8`.
unfoldable pub to_byte : Material → ℕ
to_byte empty = 0
to_byte soil = 1
to_byte wood = 2
to_byte reinforced_stone = 3

unfoldable pub is_solid : Material → Bool
is_solid empty = false
is_solid _ = true

unfoldable pub from_byte : ℕ → Material
from_byte b =
    if b == 1 then soil else if b == 2 then wood else if b == 3 then reinforced_stone else empty

-- Rows from the top, each from the left.
pub record TerrainMask : Type 0 where
  pub width : ℕ
  pub height : ℕ
  pub cells : List ℕ

-- A set of materials, as bits.
abbrev pub MaterialMask : Type 0
MaterialMask = ℕ

abbrev pub soft_materials : MaterialMask
soft_materials = 6

abbrev pub all_materials : MaterialMask
all_materials = 14

unfoldable pub permits : MaterialMask → Material → Bool
unfolding to_byte
permits m material = not (bit_and m (2 ^ to_byte material) == 0)

pub data TerrainShape : Type 0 where
  subtract_circle : FixedPoint → ℕ → TerrainShape
  subtract_capsule : FixedPoint → FixedPoint → ℕ → TerrainShape

pub record TerrainOperation : Type 0 where
  pub sequence : ℕ
  pub shape : TerrainShape
  pub material_mask : MaterialMask

pub data ErosionAxis : Type 0 where
  columns rows : ErosionAxis

pub record TerrainBlock : Type 0 where
  pub id : ℕ
  pub origin_cell_x : ℤ
  pub origin_cell_y : ℤ
  pub width_cells : ℕ
  pub height_cells : ℕ
  pub material : Material
  pub health : ℕ
  pub max_health : ℕ
  pub erosion_axis : ErosionAxis
