-- ===== src/Terrain/Operation.antt =====
-- Whole operations of crates/db-sim-core/src/terrain.rs: a fresh mask, and carving by either shape.
use dungeon_barrage.Base.{
  ℕ, ◌+◌, ◌*◌, ◌^◌, ◌<◌, ◌≡◌, refl, ap, ◌∙◌, ◌⊎◌, inl, inr, Bool, true, ◌&&◌, some, arith,
  Bool-cases, ℤ, pos, ◌*ℤ◌, sat_i64, min_ℤ, max_ℤ, replicate, get_or-replicate,
}
use dungeon_barrage.Error.{ok}
use dungeon_barrage.Fixed.{FixedPoint, to_cells}
use dungeon_barrage.Types.Terrain.{
  Material, empty, to_byte, from_byte, is_solid, TerrainMask, MaterialMask, permits,
  TerrainOperation, TerrainShape,
}
use dungeon_barrage.Terrain.{
  create_mask, cell_index, material_at, clamped_range, point_in_circle, point_in_capsule,
  subtract_circle, subtract_capsule, apply_operation,
}
use dungeon_barrage.Terrain.Cells.{from_byte-to_byte}
use dungeon_barrage.Terrain.Carve.{carved, rows_step}

-- A cell that is left alone, or one that was solid and permitted and is empty now.
abbrev pub Cut : MaterialMask → Material → Material → Type 0
Cut m v w = (w ≡ v) ⊎ ((is_solid v ≡ true) × (permits m v ≡ true) × (w ≡ empty))

Cut-carved : (b : Bool) (m : MaterialMask) (v : Material) → Cut m v (carved b m v)
unfolding carved
Cut-carved b m v = elim (Bool-cases (b && (is_solid v && permits m v))) [
  | inl h ↦ inr (ground (arith, h), ground (arith, h), rw h refl)
  | inr h ↦ inl (rw h refl)
]

Cut-step : (m : MaterialMask) (b : Bool) (v w : Material) → (w ≡ v) ⊎ (w ≡ carved b m v) → Cut m v w
Cut-step m b v w (inl same) = inl same
Cut-step m b v w (inr cut) = elim (Cut-carved b m v) [
  | inl e ↦ inl (cut ∙ e)
  | inr (s, p, e) ↦ inr (s, p, cut ∙ e)
]

module _ (mask : TerrainMask) (m : MaterialMask) (x y : ℤ) where
  circle-Cut :
      (center : FixedPoint) (r : ℕ)
      → Cut m (material_at mask x y) (material_at (subtract_circle mask center r m).0 x y)
  unfolding subtract_circle
  circle-Cut center r =
      let (cx, cy) = to_cells center in
      Cut-step m _ _ _ (
        rows_step (point_in_circle cx cy (sat_i64 (pos r *ℤ pos r))) m x y
          (clamped_range cx cx (pos r) mask.width) (clamped_range cy cy (pos r) mask.height)
          (mask, 0))

  capsule-Cut :
      (start end : FixedPoint) (r : ℕ)
      → Cut m (material_at mask x y) (material_at (subtract_capsule mask start end r m).0 x y)
  unfolding subtract_capsule
  capsule-Cut start end r =
      let (sx, sy) = to_cells start in
      let (ex, ey) = to_cells end in
      Cut-step m _ _ _ (
        rows_step (λ u v. point_in_capsule u v sx sy ex ey (sat_i64 (pos r *ℤ pos r))) m x y
          (clamped_range (min_ℤ sx ex) (max_ℤ sx ex) (pos r) mask.width)
          (clamped_range (min_ℤ sy ey) (max_ℤ sy ey) (pos r) mask.height) (mask, 0))

-- Whatever its shape, an operation leaves each cell as it was, or empties one that was solid and that its
-- material mask permits.
pub apply_operation-Cut :
    (mask : TerrainMask) (op : TerrainOperation) (x y : ℤ)
    → Cut op.material_mask (material_at mask x y) (material_at (apply_operation mask op).0 x y)
unfolding apply_operation
apply_operation-Cut mask op x y = by_shape op.shape
  where
    by_shape :
        (s : TerrainShape)
        → Cut op.material_mask
            (material_at mask x y)
            (material_at (apply_operation mask (record op { shape = s })).0 x y)
    by_shape (TerrainShape.subtract_circle center r) = circle-Cut mask op.material_mask x y center r
    by_shape (TerrainShape.subtract_capsule start end r) =
        capsule-Cut mask op.material_mask x y start end r

index-lt : (w h a b : ℕ) → a < w → b < h → b * w + a < w * h
index-lt w h a b k l = grind arith

inner :
    (mask : TerrainMask) (a b : ℕ)
    → mask.width * mask.height < 2 ^ 32
    → a < mask.width
    → b < mask.height
    → cell_index mask (pos a) (pos b) ≡ some (b * mask.width + a)
unfolding cell_index
inner mask a b n k l = ground (arith, index-lt mask.width mask.height a b k l)

-- A mask of positive sides and fewer than 2 ^ 32 cells is made, with every cell of the fill.
pub create_mask_lem :
    (w h : ℕ) (fill : Material) (a b : ℕ)
    → w * h < 2 ^ 32
    → a < w
    → b < h
    → (mask : TerrainMask) × (create_mask w h fill ≡ ok mask)
      × (material_at mask (pos a) (pos b) ≡ fill)
unfolding create_mask material_at
create_mask_lem w h fill a b n k l =
    let mask : TerrainMask = record {
      width = w;
      height = h;
      cells = replicate (w * h) (to_byte fill);
    } in
    (
      mask,
      ground (arith, n),
      rw (inner mask a b n k l, material_at)
          (ap from_byte
              (get_or-replicate (w * h) (b * w + a) (to_byte fill) 0 (index-lt w h a b k l))
            ∙ from_byte-to_byte fill),
    )
