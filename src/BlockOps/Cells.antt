-- ===== src/BlockOps/Cells.antt =====
-- What `footprint_blocked` of crates/db-sim-core/src/block_ops.rs says of the cells of a block.
use dungeon_barrage.Base.{
  ℕ, zero, suc, ◌+◌, ◌^◌, ◌<◌, ◌≡◌, ◌∙◌, ◌⊎◌, refl, ap, sym, inl, inr, Bool, true, false, not, ◌&&◌,
  ◌||◌, any, lt→ltb, arith, Bool-cases, ℤ, pos, ◌+ℤ◌, leb_ℤ, ltb_ℤ, sat_i32, if◌then◌else◌,
}
use dungeon_barrage.Types.Terrain.{TerrainMask, TerrainBlock, is_solid}
use dungeon_barrage.Terrain.{material_at}
use dungeon_barrage.Blocks.{numbers}
use dungeon_barrage.BlockOps.{in_current_footprint, stops_fall, footprint_blocked}

-- A coordinate of the block's cell by its offset.
abbrev pub cell : ℤ → ℕ → ℤ
unfolding sat_i32 ◌+ℤ◌
cell origin n = sat_i32 (origin +ℤ pos n)

-- A cell in the rows of the mask that is not solid, or the block's own.
abbrev pub IsClear : TerrainMask → TerrainBlock → ℤ → ℤ → Type 0
IsClear terrain block x y =
    (ltb_ℤ y (pos 0) ≡ false)
    × (leb_ℤ (pos terrain.height) y ≡ false)
    × ((is_solid (material_at terrain x y) ≡ false) ⊎ (in_current_footprint block x y ≡ true))

-- A cell outside the rows of the mask, or solid and not the block's own.
abbrev pub IsHeld : TerrainMask → TerrainBlock → ℤ → ℤ → Type 0
IsHeld terrain block x y =
    (ltb_ℤ y (pos 0) ≡ true)
    ⊎ ((leb_ℤ (pos terrain.height) y ≡ true)
        ⊎ ((is_solid (material_at terrain x y) ≡ true) × (in_current_footprint block x y ≡ false)))

-- All cells of the block, with its origin in a row, are clear; one of them is held.
abbrev pub IsFree : TerrainMask → TerrainBlock → ℤ → Type 0
IsFree terrain block y =
    (i j : ℕ)
    → i < block.width_cells
    → j < block.height_cells
    → IsClear terrain block (cell block.origin_cell_x i) (cell y j)

abbrev pub IsBlocked : TerrainMask → TerrainBlock → ℤ → Type 0
IsBlocked terrain block y =
    (i : ℕ) × (j : ℕ) × (i < block.width_cells)
    × (j < block.height_cells)
    × IsHeld terrain block (cell block.origin_cell_x i) (cell y j)

any-numbers-none :
    (f : ℕ → Bool) (lo n i : ℕ) → any f (numbers lo n) ≡ false → i < n → f (lo + i) ≡ false
unfolding numbers
any-numbers-none f lo zero i h lt = absurd (omega (arith, lt))
any-numbers-none f lo (suc n) zero h lt = ap f plus_zero ∙ ground (arith, h)
  where
    plus_zero : lo + 0 ≡ lo
    plus_zero = omega arith
any-numbers-none f lo (suc n) (suc i) h lt =
    ap f plus_suc ∙ any-numbers-none f (suc lo) n i (ground (arith, h)) (omega (arith, lt))
  where
    plus_suc : lo + suc i ≡ suc lo + i
    plus_suc = omega arith

any-numbers-some :
    (f : ℕ → Bool) (lo n : ℕ)
    → any f (numbers lo n) ≡ true
    → (i : ℕ) × (i < n) × (f (lo + i) ≡ true)
unfolding numbers
any-numbers-some f lo zero h = cc
any-numbers-some f lo (suc n) h = elim (Bool-cases (f lo)) [
  | inl here ↦ (0, omega arith, ap f (omega arith) ∙ here)
  | inr not_here ↦
      let (i, lt, e) = any-numbers-some f (suc lo) n (ground (arith, h, not_here)) in
      (suc i, omega (arith, lt), ap f (omega arith) ∙ e)
]

from_zero : (i : ℕ) → 0 + i ≡ i
from_zero i = omega arith

passes :
    (above below own solid : Bool)
    → (above || (below || (not own && solid))) ≡ false
    → (above ≡ false) × (below ≡ false) × ((solid ≡ false) ⊎ (own ≡ true))
passes false false true solid h = (refl, refl, inr refl)
passes false false false false h = (refl, refl, inl refl)
passes false false false true h = cc
passes false true own solid h = cc
passes true below own solid h = cc

stops :
    (above below own solid : Bool)
    → (above || (below || (not own && solid))) ≡ true
    → (above ≡ true) ⊎ ((below ≡ true) ⊎ ((solid ≡ true) × (own ≡ false)))
stops true below own solid h = inl refl
stops false true own solid h = inr (inl refl)
stops false false false true h = inr (inr (refl, refl))
stops false false false false h = cc
stops false false true solid h = cc

module _ (terrain : TerrainMask) (block : TerrainBlock) (y : ℤ)
    (small : terrain.height < 2 ^ 31) where
  stops_fall_lem :
      (x z : ℤ)
      → stops_fall terrain block x z ≡ (
          ltb_ℤ z (pos 0)
          || (leb_ℤ (pos terrain.height) z
              || (not (in_current_footprint block x z) && is_solid (material_at terrain x z))))
  unfolding stops_fall
  stops_fall_lem x z =
      ap
        (λ b.
          ltb_ℤ z (pos 0)
          || (leb_ℤ (pos (if b then terrain.height else 0)) z
              || (not (in_current_footprint block x z) && is_solid (material_at terrain x z))))
        (lt→ltb terrain.height (2 ^ 31) small)

  stops_fall-IsClear : (x z : ℤ) → stops_fall terrain block x z ≡ false → IsClear terrain block x z
  stops_fall-IsClear x z h = passes _ _ _ _ (sym (stops_fall_lem x z) ∙ h)

  stops_fall-IsHeld : (x z : ℤ) → stops_fall terrain block x z ≡ true → IsHeld terrain block x z
  stops_fall-IsHeld x z h = stops _ _ _ _ (sym (stops_fall_lem x z) ∙ h)

  pub footprint_blocked-IsFree : footprint_blocked terrain block y ≡ false → IsFree terrain block y
  unfolding footprint_blocked
  footprint_blocked-IsFree h i j wide tall = stops_fall-IsClear _ _ (
      ap (λ n. stops_fall terrain block (cell block.origin_cell_x i) (cell y n)) (sym (from_zero j))
      ∙ any-numbers-none (λ n. stops_fall terrain block (cell block.origin_cell_x i) (cell y n)) 0
          block.height_cells j
          (ap
              (λ m.
                any (λ n. stops_fall terrain block (cell block.origin_cell_x m) (cell y n))
                  (numbers 0 block.height_cells))
              (sym (from_zero i))
            ∙ any-numbers-none _ 0 block.width_cells i h wide)
          tall)

  pub footprint_blocked-IsBlocked :
      footprint_blocked terrain block y ≡ true → IsBlocked terrain block y
  unfolding footprint_blocked
  footprint_blocked-IsBlocked h =
      let (i, wide, hi) = any-numbers-some _ 0 block.width_cells h in
      let (j, tall, hj) = any-numbers-some _ 0 block.height_cells hi in
      (
        i,
        j,
        wide,
        tall,
        stops_fall-IsHeld _ _ (
            ap (λ m. stops_fall terrain block (cell block.origin_cell_x m) (cell y j))
              (sym (from_zero i))
            ∙ ap (λ n. stops_fall terrain block (cell block.origin_cell_x (0 + i)) (cell y n))
                (sym (from_zero j))
            ∙ hj),
      )
