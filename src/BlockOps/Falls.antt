-- ===== src/BlockOps/Falls.antt =====
-- How far `fall_distance` of crates/db-sim-core/src/block_ops.rs lets a block fall.
use dungeon_barrage.Base.{
  ℕ, zero, suc, ◌+◌, ◌-◌, ◌^◌, ◌<◌, ◌≤◌, ◌≡◌, ◌∙◌, ◌⊎◌, refl, ap, sym, lt→ltb, inl, inr, true,
  false, some, ◌==◌, arith, Bool-cases, ℤ, pos, negsuc, pos_part, neg_part, ◌+ℤ◌, ◌-ℤ◌, leb_ℤ,
  sat_i32, IsI32,
}
use dungeon_barrage.Types.Terrain.{TerrainMask, TerrainBlock}
use dungeon_barrage.BlockOps.{footprint_blocked, fall_loop, fall_distance}
use dungeon_barrage.BlockOps.Cells.{
  IsFree, IsBlocked, footprint_blocked-IsBlocked, footprint_blocked-IsFree,
}

-- The origin after a fall of some cells.
abbrev pub fallen_to : ℤ → ℕ → ℤ
fallen_to y k = y +ℤ pos k

-- A fall as the code tests it: each footprint on the way is free, and the next is
-- blocked unless the block lies at the lowest origin.
record FallsBy (terrain : TerrainMask) (block : TerrainBlock) (max_origin y : ℤ) (k : ℕ)
    : Type 0 where
  pub free_way : (j : ℕ) → j < k → footprint_blocked terrain block (fallen_to y (suc j)) ≡ false
  pub stopped :
      (leb_ℤ max_origin (fallen_to y k) ≡ true)
      ⊎ (footprint_blocked terrain block (fallen_to y (suc k)) ≡ true)

step_down :
    (y max_origin : ℤ)
    → IsI32 y
    → IsI32 max_origin
    → leb_ℤ max_origin y ≡ false
    → sat_i32 (y +ℤ pos 1) ≡ y +ℤ pos 1
unfolding sat_i32 ◌+ℤ◌
step_down (pos a) (pos b) h k l = ground (arith, h, k, l)
step_down (pos a) (negsuc b) h k l = ground (arith, h, k, l)
step_down (negsuc a) m h k l = ground (arith, h, k, l)

add_on : (y : ℤ) (k : ℕ) → y +ℤ pos 1 +ℤ pos k ≡ y +ℤ pos (suc k)
unfolding ◌+ℤ◌
add_on (pos a) k = ground arith
add_on (negsuc a) k = ground arith

next-IsI32 :
    (y max_origin : ℤ)
    → IsI32 y
    → IsI32 max_origin
    → leb_ℤ max_origin y ≡ false
    → IsI32 (y +ℤ pos 1)
unfolding ◌+ℤ◌
next-IsI32 (pos a) (pos b) h k l = ground (arith, h, k, l)
next-IsI32 (pos a) (negsuc b) h k l = ground (arith, h, k, l)
next-IsI32 (negsuc a) m h k l = ground (arith, h, k, l)

less_left :
    (y max_origin : ℤ) (n : ℕ)
    → pos_part (max_origin -ℤ y) ≤ suc n
    → pos_part (max_origin -ℤ (y +ℤ pos 1)) ≤ n
unfolding ◌+ℤ◌ ◌-ℤ◌
less_left (pos a) (pos b) n h = ground (arith, h)
less_left (pos a) (negsuc b) n h = ground (arith, h)
less_left (negsuc a) (pos b) n h = ground (arith, h)
less_left (negsuc a) (negsuc b) n h = ground (arith, h)

at_bottom : (y max_origin : ℤ) → pos_part (max_origin -ℤ y) ≤ 0 → leb_ℤ max_origin y ≡ true
unfolding ◌-ℤ◌
at_bottom (pos a) (pos b) h = ground (arith, h)
at_bottom (pos a) (negsuc b) h = ground (arith, h)
at_bottom (negsuc a) (pos b) h = ground (arith, h)
at_bottom (negsuc a) (negsuc b) h = ground (arith, h)

no_fall : (y : ℤ) → fallen_to y 0 ≡ y
unfolding ◌+ℤ◌
no_fall (pos a) = ground arith
no_fall (negsuc a) = ground arith

count_up : (f : ℕ) → suc f < 2 ^ 31 → sat_i32 (pos f +ℤ pos 1) ≡ pos (suc f)
unfolding sat_i32 ◌+ℤ◌
count_up f h = ground arith

module _ (terrain : TerrainMask) (block : TerrainBlock) (m : ℤ) (im : IsI32 m) where
  further :
      (y : ℤ) (k : ℕ)
      → footprint_blocked terrain block (y +ℤ pos 1) ≡ false
      → FallsBy terrain block m (y +ℤ pos 1) k
      → FallsBy terrain block m y (suc k)
  further y k open' falls = record {
    free_way = way;
    stopped = elim falls.stopped [
      | inl low ↦ inl (ap (leb_ℤ m) (sym (add_on y k)) ∙ low)
      | inr held ↦ inr (ap (footprint_blocked terrain block) (sym (add_on y (suc k))) ∙ held)
    ];
  }
    where
      way : (j : ℕ) → j < suc k → footprint_blocked terrain block (fallen_to y (suc j)) ≡ false
      way zero h = open'
      way (suc j) h =
          ap (footprint_blocked terrain block) (sym (add_on y (suc j)))
          ∙ falls.free_way j (omega (arith, h))

  fall_loop-FallsBy :
      (n f : ℕ) (y : ℤ)
      → IsI32 y
      → pos_part (m -ℤ y) ≤ n
      → f + n < 2 ^ 31
      → (k : ℕ) × (fall_loop n terrain block m (pos f) y ≡ pos (f + k))
        × FallsBy terrain block m y k
  unfolding fall_loop
  fall_loop-FallsBy zero f y iy left few = (
    0,
    ap pos (omega arith),
    record {
      free_way = λ j h. absurd (omega (arith, h));
      stopped = inl (ap (leb_ℤ m) (no_fall y) ∙ at_bottom y m left);
    },
  )
  fall_loop-FallsBy (suc n) f y iy left few = elim (Bool-cases (leb_ℤ m y)) [
    | inl low ↦ (
      0,
      rw (fall_loop, low) (ap pos (omega arith)),
      record {
        free_way = λ j h. absurd (omega (arith, h));
        stopped = inl (ap (leb_ℤ m) (no_fall y) ∙ low);
      },
    )
    | inr high ↦
        let down = step_down y m iy im high in
        elim (Bool-cases (footprint_blocked terrain block (y +ℤ pos 1))) [
          | inl held ↦ (
            0,
            rw (fall_loop, high, down, held) (ap pos (omega arith)),
            record { free_way = λ j h. absurd (omega (arith, h)); stopped = inr held },
          )
          | inr open' ↦
              let (k, e, falls) =
                fall_loop-FallsBy n (suc f) (y +ℤ pos 1) (next-IsI32 y m iy im high)
                  (less_left y m n left) (omega (arith, few)) in
              (
                suc k,
                rw (fall_loop, high, down, open', count_up f (omega (arith, few)))
                    (e ∙ ap pos (omega arith)),
                further y k open' falls,
              )
        ]
  ]

diff_le : (a : ℕ) (y : ℤ) → pos_part (pos a -ℤ y) ≤ a + neg_part y
unfolding ◌-ℤ◌
diff_le a (pos b) = ground arith
diff_le a (negsuc b) = ground arith

fall_distance-FallsBy :
    (terrain : TerrainMask) (block : TerrainBlock)
    → 0 < block.height_cells
    → block.height_cells ≤ terrain.height
    → terrain.height < 2 ^ 31
    → IsI32 block.origin_cell_y
    → neg_part block.origin_cell_y + terrain.height < 2 ^ 31
    → (k : ℕ) × (fall_distance terrain block ≡ some (pos k))
      × FallsBy terrain block (pos (terrain.height - block.height_cells)) block.origin_cell_y k
unfolding fall_distance
fall_distance-FallsBy terrain block tall fits h iy above =
    let m = pos (terrain.height - block.height_cells) in
    let lowest = lowest_origin terrain.height block.height_cells fits h in
    elim (Bool-cases (leb_ℤ m block.origin_cell_y)) [
      | inl low ↦ (
        0,
        rw
            (
              fall_distance,
              lowest,
              low,
              some_height block.height_cells tall,
              lt→ltb terrain.height (2 ^ 31) h,
            )
            refl,
        record {
          free_way = λ j h. absurd (omega (arith, h));
          stopped = inl (ap (leb_ℤ m) (no_fall block.origin_cell_y) ∙ low);
        },
      )
      | inr high ↦
          let (k, e, falls) =
            fall_loop-FallsBy terrain block m (omega arith, omega (arith, h))
              (pos_part (m -ℤ block.origin_cell_y)) 0 block.origin_cell_y iy (omega arith)
              (omega (
                arith,
                above,
                diff_le (terrain.height - block.height_cells) block.origin_cell_y,
              )) in
          (
            k,
            rw
                (
                  fall_distance,
                  lowest,
                  high,
                  some_height block.height_cells tall,
                  lt→ltb terrain.height (2 ^ 31) h,
                )
                (ap some (e ∙ ap pos (omega arith))),
            falls,
          )
    ]
  where
    some_height : (n : ℕ) → 0 < n → (n == 0) ≡ false
    some_height n h = ground (arith, h)

    lowest_origin : (a b : ℕ) → b ≤ a → a < 2 ^ 31 → sat_i32 (pos a -ℤ pos b) ≡ pos (a - b)
    lowest_origin a b h k = unfold sat_i32 ◌-ℤ◌ in ground (arith, h, k)

-- A fall of `k` cells to at most a lowest origin: at each origin on the way every cell of the block is in
-- the rows of the mask and, but for the block's own cells, not solid; and either the block is at the lowest
-- origin or, one cell lower, one of its cells would be solid and not its own, or outside the rows.
pub record Falls (terrain : TerrainMask) (block : TerrainBlock) (max_origin y : ℤ) (k : ℕ)
    : Type 0 where
  pub free_way : (j : ℕ) → j < k → IsFree terrain block (fallen_to y (suc j))
  pub stopped :
      (leb_ℤ max_origin (fallen_to y k) ≡ true) ⊎ IsBlocked terrain block (fallen_to y (suc k))

-- A block of some height, not below its lowest place in a mask of i32 height, and less than 2 ^ 31
-- cells above it, falls only through cells that are in the rows of the mask and not solid or its own, and
-- as far as that goes: to its lowest place, or until one of its cells would meet a solid cell that is not
-- its own, or one outside the rows.
pub fall_distance-Falls :
    (terrain : TerrainMask) (block : TerrainBlock)
    → 0 < block.height_cells
    → block.height_cells ≤ terrain.height
    → terrain.height < 2 ^ 31
    → IsI32 block.origin_cell_y
    → neg_part block.origin_cell_y + terrain.height < 2 ^ 31
    → (k : ℕ) × (fall_distance terrain block ≡ some (pos k))
      × Falls terrain block (pos (terrain.height - block.height_cells)) block.origin_cell_y k
fall_distance-Falls terrain block tall fits h iy above =
    let (k, e, falls) = fall_distance-FallsBy terrain block tall fits h iy above in
    (
      k,
      e,
      record {
        free_way = λ j lt. footprint_blocked-IsFree terrain block _ h (falls.free_way j lt);
        stopped = elim falls.stopped [
          | inl low ↦ inl low
          | inr held ↦ inr (footprint_blocked-IsBlocked terrain block _ h held)
        ];
      },
    )
