-- ===== src/Blocks/Columns.antt =====
-- The solid columns and the health of a block, in crates/db-sim-core/src/blocks.rs.
use dungeon_barrage.Base.{
  ℕ, zero, suc, ◌+◌, ◌-◌, ◌*◌, ◌/◌, ◌^◌, ◌<◌, ◌≤◌, ◌≡◌, refl, sym, ◌∙◌, ◌⊎◌, inl, inr, ◌||◌, some,
  ◌==◌, min, arith, Bool-cases,
}
use native.Mathlib.Nat.{mod-eq_of_lt}
use dungeon_barrage.Types.Terrain.{TerrainBlock}
use dungeon_barrage.Blocks.{checked_u64, ceil_div_u64, solid_columns, damage_block}

-- A block of the game: a 16-bit width and health, with health left up to a positive maximum.
pub record IsBlock (b : TerrainBlock) : Type 0 where
  pub width : b.width_cells < 2 ^ 16
  pub full : b.max_health < 2 ^ 16
  pub positive : 0 < b.max_health
  pub health : b.health ≤ b.max_health

-- `q` is `n / d` rounded up.
abbrev pub IsCeiling : ℕ → ℕ → ℕ → Type 0
IsCeiling n d q = (n ≤ q * d) × (q * d < n + d)

ceil_div-IsCeiling : (n d : ℕ) → 0 < d → IsCeiling n d ((n + (d - 1)) / d)
ceil_div-IsCeiling n d h = (omega arith, omega arith)

ceil-le : (w n d q : ℕ) → 0 < d → n ≤ w * d → q * d < n + d → q ≤ w
ceil-le w n d q p h k = grind arith

product_small : (w h : ℕ) → w < 2 ^ 16 → h < 2 ^ 16 → w * h < 2 ^ 32
product_small w h k l = grind arith

product_le : (w h d : ℕ) → h ≤ d → w * h ≤ w * d
product_le w h d k = grind arith

zero_product : (w h : ℕ) → (w ≡ 0) ⊎ (h ≡ 0) → w * h ≡ 0
zero_product w h (inl e) = grind arith
zero_product w h (inr e) = grind arith

module _ (b : TerrainBlock) (i : IsBlock b) where
  abbrev share : ℕ
  share = (b.width_cells * b.health + (b.max_health - 1)) / b.max_health

  share-le : share ≤ b.width_cells
  share-le =
      let (over, under) = ceil_div-IsCeiling (b.width_cells * b.health) b.max_health i.positive in
      ceil-le b.width_cells (b.width_cells * b.health) b.max_health share i.positive
        (product_le b.width_cells b.health b.max_health i.health) under

  share_empty : (b.width_cells ≡ 0) ⊎ (b.health ≡ 0) → share ≡ 0
  share_empty e =
      let (over, under) = ceil_div-IsCeiling (b.width_cells * b.health) b.max_health i.positive in
      no_share share b.max_health (omega (arith, under, zero_product b.width_cells b.health e))
    where
      no_share : (q d : ℕ) → q * d < d → q ≡ 0
      no_share zero d h = refl
      no_share (suc q) d h = absurd (omega (arith, h))

  checked : checked_u64 (b.width_cells * b.health) ≡ some (b.width_cells * b.health)
  checked =
      ground (arith, product_small b.width_cells b.health i.width (omega (arith, i.health, i.full)))

  divided : ceil_div_u64 (b.width_cells * b.health) b.max_health ≡ some share
  unfolding ceil_div_u64
  divided = ground (
    arith,
    i.positive,
    i.full,
    product_small b.width_cells b.health i.width (omega (arith, i.health, i.full)),
  )

  solid_columns-share : solid_columns b ≡ share
  unfolding solid_columns
  solid_columns-share =
      elim (Bool-cases (b.width_cells == 0 || (b.health == 0 || b.max_health == 0))) [
        | inl none' ↦ rw none' (sym (share_empty (ground (arith, none', i.positive))))
        | inr some' ↦
            rw (some', checked)
              (rw divided (
                mod-eq_of_lt {n = min share b.width_cells} {m = 2 ^ 16}
                  (omega (arith, share-le, i.width))
                ∙ omega (arith, share-le)))
      ]

-- The solid columns of a block of the game are the share of the health, rounded up, and never more than the width.
pub solid_columns-IsCeiling :
    (b : TerrainBlock)
    → IsBlock b
    → IsCeiling (b.width_cells * b.health) b.max_health (solid_columns b)
      × (solid_columns b ≤ b.width_cells)
solid_columns-IsCeiling b i =
    rw (solid_columns-share b i)
      (ceil_div-IsCeiling (b.width_cells * b.health) b.max_health i.positive, share-le b i)

ceiling_mono : (n k d p q : ℕ) → n ≤ k → p * d < n + d → k ≤ q * d → p ≤ q
ceiling_mono n k d p q h u o = grind arith

ceiling_positive : (w h d q : ℕ) → 0 < w → 0 < h → w * h ≤ q * d → 0 < q
ceiling_positive w h d q a b k = grind arith

damage_block-IsBlock : (b : TerrainBlock) (n : ℕ) → IsBlock b → IsBlock (damage_block b n).0
unfolding damage_block
damage_block-IsBlock b n i = record {
  width = i.width;
  full = i.full;
  positive = i.positive;
  health = omega (arith, i.health);
}

-- A hit on a block of the game leaves one, absorbs what it takes from the health and no more than
-- its amount, and never adds a solid column; as long as there are columns and health, some are solid.
pub damage_block_lem :
    (b : TerrainBlock) (n : ℕ)
    → IsBlock b
    → let (b', absorbed) = damage_block b n in
      IsBlock b'
      × (absorbed + b'.health ≡ b.health)
      × (absorbed ≤ n)
      × (solid_columns b' ≤ solid_columns b)
      × ((b.width_cells ≡ 0) ⊎ (b'.health ≡ 0) ⊎ (0 < solid_columns b'))
unfolding damage_block
damage_block_lem b n i =
    let j = damage_block-IsBlock b n i in
    let hit : TerrainBlock = record b { health = b.health - n } in
    let ((over, under), _) = solid_columns-IsCeiling b i in
    let ((over', under'), _) = solid_columns-IsCeiling hit j in
    (
      j,
      omega arith,
      omega arith,
      ceiling_mono (b.width_cells * (b.health - n)) (b.width_cells * b.health) b.max_health
          (solid_columns hit) (solid_columns b)
          (product_le b.width_cells (b.health - n) b.health (omega arith)) under' over,
      elim (Bool-cases (b.width_cells == 0)) [
        | inl e ↦ inl (ground (arith, e))
        | inr w ↦ elim (Bool-cases (b.health - n == 0)) [
          | inl e ↦ inr (inl (ground (arith, e)))
          | inr l ↦ inr (
              inr (
                ceiling_positive b.width_cells (b.health - n) b.max_health (solid_columns hit)
                  (ground (arith, w)) (ground (arith, l)) over'))
        ]
      ],
    )
