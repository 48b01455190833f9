-- ===== src/Terrain/Circle.antt =====
-- `subtract_circle` of crates/db-sim-core/src/terrain.rs against the disc it is to carve.
use dungeon_barrage.Base.{
  ℕ, zero, suc, ◌+◌, ◌-◌, ◌*◌, ◌^◌, ◌<◌, ◌≤◌, ◌≡◌, refl, ap, subst, sym, ◌∙◌, ◌⊎◌, inl, inr, Bool,
  true, false, List, arith, In, Bool-cases, Option-cases, ℤ, pos, negsuc, pos_part, ◌+ℤ◌, ◌-ℤ◌,
  ◌*ℤ◌, ◌≤ℤ◌, min, min_ℤ, max_ℤ, sat_i32, sat_i64, IsI32, div_euclid, +ℤ_parts, -ℤ_parts, leb_ℤ,
  leb,
}
use dungeon_barrage.Fixed.{FixedPoint, to_cells, distance_squared}
use dungeon_barrage.Fixed.Distance.{gap, i64_cap, euclidean, distance_squared_lem}
use dungeon_barrage.Types.Terrain.{Material, TerrainMask, MaterialMask, empty}
use dungeon_barrage.Terrain.{
  cell_index, material_at, last_valid_index, count_from, inclusive, clamped_range, square_sum,
  point_in_circle, subtract_circle, carve_rows,
}
use dungeon_barrage.Terrain.Cells.{cell_index-some, material_at-none}
use dungeon_barrage.Terrain.Carve.{carved, carved_empty, carve_rows_lem}

-- Every number from `a` on, up to `n` of them.
In-count_from : (a k n : ℕ) → k < n → In (pos (a + k)) (count_from (pos a) n)
unfolding count_from ◌+ℤ◌
In-count_from a k zero h = elim h [ ]
In-count_from a zero (suc n) h = inl (ap pos (omega arith))
In-count_from a (suc k) (suc n) h =
    let e : pos a +ℤ pos 1 ≡ pos (a + 1) = ground arith in
    inr (
      rw e (
        subst (λ c. In (pos c) (count_from (pos (a + 1)) n)) (omega arith)
          (In-count_from (a + 1) k n (omega arith))))

-- An inclusive range of cells holds the cells between its ends.
In-inclusive :
    (lo hi : ℤ) (a : ℕ) → pos 0 ≤ℤ lo → lo ≤ℤ pos a → pos a ≤ℤ hi → In (pos a) (inclusive lo hi)
unfolding inclusive
In-inclusive (pos l) (pos h) a p k m =
    let e : pos_part ((pos h -ℤ pos l) +ℤ pos 1) ≡ h + 1 - l =
      ground (arith, -ℤ_parts (pos h) (pos l), +ℤ_parts (pos h -ℤ pos l) (pos 1)) in
    rw e (
      subst (λ c. In (pos c) (count_from (pos l) (h + 1 - l))) (omega arith)
        (In-count_from l (a - l) (h + 1 - l) (omega arith)))
In-inclusive (negsuc l) hi a p k m = absurd (omega (arith, p))
In-inclusive lo (negsuc h) a p k m = absurd (omega (arith, m))

square_le : (g d r : ℕ) → g * g + d * d ≤ r * r → g ≤ r
square_le g d r h = grind arith

within_bounds :
    (c : ℤ) (r dim a : ℕ)
    → IsI32 c
    → r < 2 ^ 16
    → dim < 2 ^ 31
    → a < dim
    → gap (pos a) c ≤ r
    → (pos 0 ≤ℤ max_ℤ (sat_i32 (c -ℤ pos r)) (pos 0))
      × (max_ℤ (sat_i32 (c -ℤ pos r)) (pos 0) ≤ℤ pos a)
      × (pos a ≤ℤ min_ℤ (sat_i32 (c +ℤ pos r)) (last_valid_index dim))
unfolding last_valid_index sat_i32 ◌-ℤ◌ ◌+ℤ◌
within_bounds (pos c) r dim a i k l m g = (ground arith, ground arith, ground arith)
within_bounds (negsuc c) r dim a i k l m g = (ground arith, ground arith, ground arith)

-- The box of the loops holds every cell of the mask that is near enough.
box :
    (c : ℤ) (r dim a : ℕ)
    → IsI32 c
    → r < 2 ^ 16
    → dim < 2 ^ 31
    → a < dim
    → gap (pos a) c ≤ r
    → In (pos a) (clamped_range c c (pos r) dim)
unfolding clamped_range
box c r dim a i k l m g =
    let (low, left, right) = within_bounds c r dim a i k l m g in
    In-inclusive (max_ℤ (sat_i32 (c -ℤ pos r)) (pos 0))
      (min_ℤ (sat_i32 (c +ℤ pos r)) (last_valid_index dim)) a low left right

-- The disc of a radius around the cell of a position.
abbrev pub in_disc : FixedPoint → ℕ → ℤ → ℤ → Bool
in_disc center r x y =
    let (cx, cy) = to_cells center in leb (gap x cx * gap x cx + gap y cy * gap y cy) (r * r)

capped : (e k : ℕ) → k < i64_cap → leb_ℤ (pos (min e i64_cap)) (pos k) ≡ leb e k
capped e k h = ground arith

square_small : (r : ℕ) → r < 2 ^ 16 → r * r < 2 ^ 32
square_small r k = grind arith

radius_squared : (r : ℕ) → r < 2 ^ 16 → sat_i64 (pos r *ℤ pos r) ≡ pos (r * r)
unfolding sat_i64 ◌*ℤ◌
radius_squared r k = ground (arith, square_small r k)

point_in_circle-in_disc :
    (x y cx cy : ℤ) (r : ℕ)
    → IsI32 x
    → IsI32 y
    → IsI32 cx
    → IsI32 cy
    → r < 2 ^ 16
    → point_in_circle cx cy (sat_i64 (pos r *ℤ pos r)) x y
      ≡ leb (gap x cx * gap x cx + gap y cy * gap y cy) (r * r)
unfolding point_in_circle square_sum distance_squared euclidean
point_in_circle-in_disc x y cx cy r ix iy ic id k =
    let far =
      distance_squared_lem (record { x = x; y = y }) (record { x = cx; y = cy }) (ix, iy)
        (ic, id) in
    rw (far, radius_squared r k) (capped _ (r * r) (omega (arith, square_small r k)))

cell_of_IsI32 :
    (p : FixedPoint) → IsI32 p.x → IsI32 p.y → IsI32 (to_cells p).0 × IsI32 (to_cells p).1
unfolding to_cells div_euclid
cell_of_IsI32 p h k = (shrink p.x h, shrink p.y k)
  where
    shrink : (a : ℤ) → IsI32 a → IsI32 (div_euclid a 1024)
    shrink (pos a) h = ground arith
    shrink (negsuc a) h = ground arith

module _ (mask : TerrainMask) (center : FixedPoint) (r : ℕ) (m : MaterialMask) where
  abbrev cx : ℤ
  cx = (to_cells center).0

  abbrev cy : ℤ
  cy = (to_cells center).1

  -- The columns or the rows of the box.
  abbrev span : ℤ → ℕ → List ℤ
  span c dim = clamped_range c c (pos r) dim

  abbrev shape : ℤ → ℤ → Bool
  shape = point_in_circle cx cy (sat_i64 (pos r *ℤ pos r))

  loops :
      subtract_circle mask center r m
      ≡ carve_rows shape m (span cx mask.width) (span cy mask.height) (mask, 0)
  unfolding subtract_circle
  loops = refl

  module _ (x y : ℤ) where
    by_loops :
        (shape x y ≡ in_disc center r x y)
        → (In x (span cx mask.width) × In y (span cy mask.height))
          ⊎ (material_at mask x y ≡ carved (in_disc center r x y) m (material_at mask x y))
        → material_at (subtract_circle mask center r m).0 x y
          ≡ carved (in_disc center r x y) m (material_at mask x y)
    by_loops e h =
        ap (λ t. material_at t.0 x y) loops
        ∙ carve_rows_lem shape m x y (span cx mask.width) (span cy mask.height) (mask, 0)
            (elim h [
              | inl meets ↦ inl meets
              | inr bare ↦ inr (bare ∙ ap (λ b. carved b m (material_at mask x y)) (sym e))
            ])
        ∙ ap (λ b. carved b m (material_at mask x y)) e

    by_emptiness :
        material_at mask x y ≡ empty
        → material_at (subtract_circle mask center r m).0 x y
          ≡ carved (in_disc center r x y) m (material_at mask x y)
    by_emptiness h =
        ap (λ t. material_at t.0 x y) loops
        ∙ carve_rows_lem shape m x y (span cx mask.width) (span cy mask.height) (mask, 0)
            (inr (h ∙ sym (kept (shape x y))))
        ∙ kept (shape x y)
        ∙ sym (kept (in_disc center r x y))
      where
        kept : (b : Bool) → carved b m (material_at mask x y) ≡ empty
        kept b = ap (carved b m) h ∙ carved_empty b m

carved-false : (m : MaterialMask) (v : Material) → carved false m v ≡ v
unfolding carved
carved-false m v = refl

near :
    (a c b d : ℤ) (r : ℕ)
    → leb (gap a c * gap a c + gap b d * gap b d) (r * r) ≡ true
    → (gap a c ≤ r) × (gap b d ≤ r)
near a c b d r h =
    let le : gap a c * gap a c + gap b d * gap b d ≤ r * r = ground (arith, h) in
    (square_le (gap a c) (gap b d) r le, square_le (gap b d) (gap a c) r (omega (arith, le)))

-- Carving a circle of less than 2 ^ 16 cells out of a mask whose sides are below 2 ^ 31 empties exactly
-- the solid, permitted cells of the disc around an i32 position, and leaves every other cell.
pub subtract_circle_lem :
    (mask : TerrainMask) (center : FixedPoint) (r : ℕ) (m : MaterialMask) (x y : ℤ)
    → mask.width < 2 ^ 31
    → mask.height < 2 ^ 31
    → IsI32 center.x
    → IsI32 center.y
    → r < 2 ^ 16
    → material_at (subtract_circle mask center r m).0 x y
      ≡ carved (in_disc center r x y) m (material_at mask x y)
subtract_circle_lem mask center r m x y w h ix iy k = elim (Option-cases (cell_index mask x y)) [
  | inl outside ↦ by_emptiness mask center r m x y (material_at-none mask x y outside)
  | inr (i, inside) ↦
      let (ex, ey, lx, ly, _) = cell_index-some mask x y i inside in
      let (ic, id) = cell_of_IsI32 center ix iy in
      let jx : IsI32 x = subst IsI32 (sym ex) (omega (arith, lx, w)) in
      let jy : IsI32 y = subst IsI32 (sym ey) (omega (arith, ly, h)) in
      by_loops mask center r m x y
        (point_in_circle-in_disc x y (cx mask center r m) (cy mask center r m) r jx jy ic id k)
        (elim (Bool-cases (in_disc center r x y)) [
          | inr far ↦ inr (
              sym (
                ap (λ b. carved b m (material_at mask x y)) far
                ∙ carved-false m (material_at mask x y)))
          | inl close ↦
              let (gx, gy) = near x (cx mask center r m) y (cy mask center r m) r close in
              inl (
                subst (λ a. In a (span mask center r m (cx mask center r m) mask.width)) (sym ex)
                    (box (cx mask center r m) r mask.width (pos_part x) ic k w lx
                      (subst (λ a. gap a (cx mask center r m) ≤ r) ex gx)),
                subst (λ a. In a (span mask center r m (cy mask center r m) mask.height)) (sym ey)
                    (box (cy mask center r m) r mask.height (pos_part y) id k h ly
                      (subst (λ a. gap a (cy mask center r m) ≤ r) ey gy)),
              )
        ])
]
