-- ===== src/Terrain/Cells.antt =====
-- Reading and writing one cell, in crates/db-sim-core/src/terrain.rs.
use dungeon_barrage.Base.{
  ℕ, zero, suc, List, [], ◌∷◌, ◌+◌, ◌*◌, ◌<◌, ◌≤◌, ◌≡◌, ◌≢◌, refl, ap, sym, ◌∙◌, ◌⊎◌, inl, inr,
  true, none, some, ltb, arith, length, get_or, set, get_or-set_self, get_or-set_ne, Bool-cases,
  Option-cases, ℤ, pos, negsuc, pos_part,
}
use dungeon_barrage.Types.Terrain.{
  Material, empty, soil, wood, reinforced_stone, to_byte, from_byte, is_solid, TerrainMask,
}
use dungeon_barrage.Terrain.{cell_index, material_at, set_material}

pub from_byte-to_byte : (m : Material) → from_byte (to_byte m) ≡ m
unfolding from_byte to_byte
from_byte-to_byte empty = refl
from_byte-to_byte soil = refl
from_byte-to_byte wood = refl
from_byte-to_byte reinforced_stone = refl

-- What a cell that has an index is known to be.
pub cell_index-some :
    (mask : TerrainMask) (x y : ℤ) (i : ℕ)
    → cell_index mask x y ≡ some i
    → (x ≡ pos (pos_part x))
      × (y ≡ pos (pos_part y))
      × (pos_part x < mask.width)
      × (pos_part y < mask.height)
      × (i ≡ pos_part y * mask.width + pos_part x)
unfolding cell_index
cell_index-some mask (pos x) (pos y) i h = ground (arith, h)
cell_index-some mask (negsuc x) y i h = ground (arith, h)
cell_index-some mask (pos x) (negsuc y) i h = ground (arith, h)

row_le : (w a b c d : ℕ) → b < w → d < w → a * w + b ≡ c * w + d → a ≤ c
row_le w a b c d h k e = grind arith

row_unique : (w a b c d : ℕ) → b < w → d < w → a * w + b ≡ c * w + d → (a ≡ c) × (b ≡ d)
row_unique w a b c d h k e =
    let same : a ≡ c = omega (arith, row_le w a b c d h k e, row_le w c d a b k h (sym e)) in
    (same, omega (arith, e, ap (λ (n : ℕ). n * w) same))

-- Different cells have different indices.
pub cell_index-inj :
    (mask : TerrainMask) (x y u v : ℤ) (i : ℕ)
    → cell_index mask x y ≡ some i
    → cell_index mask u v ≡ some i
    → (x ≡ u) × (y ≡ v)
cell_index-inj mask x y u v i h k =
    let (ex, ey, lx, ly, ei) = cell_index-some mask x y i h in
    let (eu, ev, lu, lv, fi) = cell_index-some mask u v i k in
    let (a, b) =
      row_unique mask.width (pos_part y) (pos_part x) (pos_part v) (pos_part u) lx lu
        (sym ei ∙ fi) in
    (ex ∙ ap pos b ∙ sym eu, ey ∙ ap pos a ∙ sym ev)

cell_index-write :
    (mask : TerrainMask) (cells : List ℕ) (x y : ℤ)
    → cell_index (record mask { cells = cells }) x y ≡ cell_index mask x y
unfolding cell_index
cell_index-write mask cells x y = refl

material_at-some :
    (mask : TerrainMask) (x y : ℤ) (i : ℕ)
    → cell_index mask x y ≡ some i
    → material_at mask x y ≡ from_byte (get_or mask.cells i 0)
unfolding material_at
material_at-some mask x y i h = rw (h, material_at) refl

pub material_at-none :
    (mask : TerrainMask) (x y : ℤ) → cell_index mask x y ≡ none → material_at mask x y ≡ empty
unfolding material_at
material_at-none mask x y h = rw (h, material_at) refl

set_material-some :
    (mask : TerrainMask) (x y : ℤ) (m : Material) (i : ℕ)
    → cell_index mask x y ≡ some i
    → i < length mask.cells
    → set_material mask x y m ≡ (record mask { cells = set mask.cells i (to_byte m) }, true)
unfolding set_material
set_material-some mask x y m i h l = rw (h, set_material) (ground (arith, l))

get_or-past : (cells : List ℕ) (i : ℕ) → length cells ≤ i → get_or cells i 0 ≡ 0
get_or-past [] i h = refl
get_or-past (c ∷ cells) zero h = absurd (omega (arith, h))
get_or-past (c ∷ cells) (suc i) h = get_or-past cells i (omega (arith, h))

from_byte-zero : from_byte 0 ≡ empty
unfolding from_byte
from_byte-zero = refl

pub not_solid : (m : Material) → m ≡ empty → is_solid m ≡ true → ⊥
unfolding is_solid
not_solid m e h = cc (ap is_solid e, h)

-- A cell whose material is solid is inside the mask, and stored in it.
pub stored :
    (mask : TerrainMask) (x y : ℤ)
    → is_solid (material_at mask x y) ≡ true
    → (i : ℕ) × (cell_index mask x y ≡ some i) × (i < length mask.cells)
stored mask x y h = elim (Option-cases (cell_index mask x y)) [
  | inl e ↦ absurd (not_solid (material_at mask x y) (material_at-none mask x y e) h)
  | inr (i, e) ↦ elim (Bool-cases (ltb i (length mask.cells))) [
    | inl l ↦ (i, e, ground (arith, l))
    | inr past ↦
        let bare =
          ap from_byte (get_or-past mask.cells i (ground (arith, past))) ∙ from_byte-zero in
        absurd (not_solid (material_at mask x y) (material_at-some mask x y i e ∙ bare) h)
  ]
]

module _ (mask : TerrainMask) (x y : ℤ) (m : Material) (i : ℕ) (h : cell_index mask x y ≡ some i)
    (l : i < length mask.cells) where
  abbrev written : TerrainMask
  written = record mask { cells = set mask.cells i (to_byte m) }

  pub material_at-set_here : material_at (set_material mask x y m).0 x y ≡ m
  material_at-set_here = rw (set_material-some mask x y m i h l) (
      material_at-some written x y i (cell_index-write mask (set mask.cells i (to_byte m)) x y ∙ h)
      ∙ ap from_byte (get_or-set_self mask.cells i (to_byte m) 0 l)
      ∙ from_byte-to_byte m)

  apart : (u v : ℤ) (j : ℕ) → (x ≢ u) ⊎ (y ≢ v) → cell_index mask u v ≡ some j → i ≢ j
  apart u v j n k e =
      let (a, b) = cell_index-inj mask x y u v j (h ∙ ap some e) k in
      elim n [ inl f ↦ f a | inr f ↦ f b ]

  pub material_at-set_apart :
      (u v : ℤ)
      → (x ≢ u) ⊎ (y ≢ v)
      → material_at (set_material mask x y m).0 u v ≡ material_at mask u v
  material_at-set_apart u v n =
      let same = cell_index-write mask (set mask.cells i (to_byte m)) u v in
      rw (set_material-some mask x y m i h l) (elim (Option-cases (cell_index mask u v)) [
        | inl k ↦ material_at-none written u v (same ∙ k) ∙ sym (material_at-none mask u v k)
        | inr (j, k) ↦
            material_at-some written u v j (same ∙ k)
            ∙ ap from_byte (get_or-set_ne mask.cells i j (to_byte m) 0 (apart u v j n k))
            ∙ sym (material_at-some mask u v j k)
      ])

-- A write into a stored cell succeeds, is read back there, and leaves every other cell as it was.
pub set_material_lem :
    (mask : TerrainMask) (x y u v : ℤ) (m : Material) (i : ℕ)
    → cell_index mask x y ≡ some i
    → i < length mask.cells
    → (x ≢ u) ⊎ (y ≢ v)
    → ((set_material mask x y m).1 ≡ true)
      × (material_at (set_material mask x y m).0 x y ≡ m)
      × (material_at (set_material mask x y m).0 u v ≡ material_at mask u v)
set_material_lem mask x y u v m i h l n = (
  ap (λ r. r.1) (set_material-some mask x y m i h l),
  material_at-set_here mask x y m i h l,
  material_at-set_apart mask x y m i h l u v n,
)
