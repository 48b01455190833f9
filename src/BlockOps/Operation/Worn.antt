-- ===== src/BlockOps/Operation/Worn.antt =====
-- What terrain operations through blocks, of crates/db-sim-core/src/block_ops.rs, may do to the blocks.
use dungeon_barrage.Base.{
  ℕ, zero, suc, ◌-◌, ◌*◌, ◌^◌, ◌≤◌, ◌≡◌, refl, inl, inr, Bool, false, not, ◌||◌, List, [], ◌∷◌,
  get_elem?, ltb, ◌==◌, min, arith, Bool-cases, Option-cases, ℤ, AllAgree, AllAgree-self,
  AllAgree-set,
}
use dungeon_barrage.Types.Terrain.{TerrainMask, TerrainOperation, TerrainBlock}
use dungeon_barrage.Types.State.{SimulationState}
use dungeon_barrage.Terrain
use dungeon_barrage.Terrain.{is_zero}
use dungeon_barrage.Blocks.{damage_block}
use dungeon_barrage.BlockOps.{
  CellRect, operation_bounds, rects_overlap, block_bounds, fall_distance, expected_solid_cells,
  count_solid,
}
use dungeon_barrage.BlockOps.Operation.{
  Field, impact_of, wear_block, visit_block, visit_blocks, visiting_order, drop_block, settle_block,
  settle_pass, settle_once, settle_passes, settle_unsupported_blocks, max_passes, apply_operation,
  falling_order,
}

-- A block that has at most lost health and fallen.
pub record Worn (b c : TerrainBlock) : Type 0 where
  pub id : c.id ≡ b.id
  pub origin_cell_x : c.origin_cell_x ≡ b.origin_cell_x
  pub width_cells : c.width_cells ≡ b.width_cells
  pub height_cells : c.height_cells ≡ b.height_cells
  pub material : c.material ≡ b.material
  pub health : c.health ≤ b.health
  pub max_health : c.max_health ≡ b.max_health
  pub erosion_axis : c.erosion_axis ≡ b.erosion_axis

unworn : (b : TerrainBlock) → Worn b b
unworn b = record {
  id = refl;
  origin_cell_x = refl;
  width_cells = refl;
  height_cells = refl;
  material = refl;
  health = omega arith;
  max_health = refl;
  erosion_axis = refl;
}

-- Less health, and another height.
lowered :
    (a b : TerrainBlock) (health : ℕ) (y : ℤ)
    → health ≤ b.health
    → Worn a b
    → Worn a (record b { health = health; origin_cell_y = y })
lowered a b health y h w = record {
  id = w.id;
  origin_cell_x = w.origin_cell_x;
  width_cells = w.width_cells;
  height_cells = w.height_cells;
  material = w.material;
  health = omega (arith, h, w.health);
  max_health = w.max_health;
  erosion_axis = w.erosion_axis;
}

wear_block-Worn : (mask : TerrainMask) (a b : TerrainBlock) → Worn a b → Worn a (wear_block mask b)
unfolding wear_block damage_block
wear_block-Worn mask a b w =
    elim (Bool-cases (ltb 0 (expected_solid_cells b - count_solid mask (block_bounds b)))) [
      | inl hit ↦ rw (wear_block, hit) (lowered a b (b.health - _) b.origin_cell_y (omega arith) w)
      | inr spared ↦ rw (wear_block, spared) w
    ]

module _ (original : List TerrainBlock) where
  abbrev Kept : Field → Type 0
  Kept field = AllAgree Worn original field.1

  visit_block-Kept :
      (r : CellRect) (x : ℤ) (field : Field) (i : ℕ) → Kept field → Kept (visit_block r x field i)
  unfolding visit_block
  visit_block-Kept r x (mask, blocks) i k = elim (Option-cases (get_elem? blocks i)) [
    | inl missing ↦ rw (visit_block, missing) k
    | inr (b, found) ↦
        elim (Bool-cases (
          not (rects_overlap r (block_bounds b))
          || min (b.width_cells * b.height_cells) (2 ^ 32 - 1) == 0)) [
            | inl skipped ↦ rw (visit_block, found, skipped) k
            | inr touched ↦
                rw (visit_block, found, touched)
                  (AllAgree-set Worn original blocks i b (wear_block mask b) found
                    (λ a w. wear_block-Worn mask a b w) k)
          ]
  ]

  visit_blocks-Kept :
      (r : CellRect) (x : ℤ) (order : List ℕ) (field : Field)
      → Kept field
      → Kept (visit_blocks r x order field)
  unfolding visit_blocks
  visit_blocks-Kept r x [] field k = k
  visit_blocks-Kept r x (i ∷ order) field k =
      visit_blocks-Kept r x order (visit_block r x field i) (visit_block-Kept r x field i k)

  settle_block-Kept : (field : Field) (i : ℕ) → Kept field → Kept (settle_block field i).0
  unfolding settle_block drop_block
  settle_block-Kept (mask, blocks) i k = elim (Option-cases (get_elem? blocks i)) [
    | inl missing ↦ rw (settle_block, missing) k
    | inr (b, found) ↦ elim (Bool-cases (b.health == 0)) [
      | inl gone ↦ rw (settle_block, found, gone) k
      | inr there ↦ elim (Option-cases (fall_distance mask b)) [
        | inl huge ↦ rw (settle_block, found, there, huge) k
        | inr (fall, far) ↦ elim (Bool-cases (is_zero fall)) [
          | inl rests ↦ rw (settle_block, found, there, far, rests) k
          | inr falls ↦
              rw (settle_block, found, there, far, falls)
                (AllAgree-set Worn original blocks i b _ found
                  (λ a w. lowered a b b.health _ (omega arith) w) k)
        ]
      ]
    ]
  ]

  settle_pass-Kept :
      (order : List ℕ) (field : Field) (moved : Bool)
      → Kept field
      → Kept (settle_pass order field moved).0
  unfolding settle_pass
  settle_pass-Kept [] field moved k = k
  settle_pass-Kept (i ∷ order) field moved k =
      settle_pass-Kept order (settle_block field i).0 ((settle_block field i).1 || moved)
        (settle_block-Kept field i k)

  settle_passes-Kept : (n : ℕ) (field : Field) → Kept field → Kept (settle_passes n field)
  unfolding settle_passes settle_once
  settle_passes-Kept zero field k = k
  settle_passes-Kept (suc n) field k =
      let once = settle_pass-Kept (falling_order field.1) field false k in
      elim (Bool-cases (settle_once field).1) [
        | inl more ↦ rw (settle_passes, more) (settle_passes-Kept n (settle_once field).0 once)
        | inr done ↦ rw (settle_passes, done) once
      ]

-- The terrain and the blocks before the fall.
abbrev carved_field : SimulationState → TerrainOperation → Field
carved_field s op = ((Terrain.apply_operation s.terrain op).0, s.blocks)

abbrev visited : SimulationState → TerrainOperation → Field
visited s op =
    visit_blocks (operation_bounds op) (impact_of op.shape) (visiting_order s.blocks)
      (carved_field s op)

-- A terrain operation keeps every block in its place in the list, with its identifier, column, size,
-- material, maximum and axis, which no operation sets; no block gains health, and the players and the objects
-- stay as they are.
pub apply_operation-Worn :
    (s : SimulationState) (op : TerrainOperation)
    → AllAgree Worn s.blocks (apply_operation s op).0.blocks
      × ((apply_operation s op).0.players ≡ s.players)
      × ((apply_operation s op).0.objects ≡ s.objects)
unfolding apply_operation settle_unsupported_blocks
apply_operation-Worn s op = (
  settle_passes-Kept s.blocks max_passes (visited s op) (
      visit_blocks-Kept s.blocks (operation_bounds op) (impact_of op.shape)
        (visiting_order s.blocks) (carved_field s op) (AllAgree-self Worn unworn s.blocks)),
  refl,
  refl,
)
