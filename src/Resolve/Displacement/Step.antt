-- ===== src/Resolve/Displacement/Step.antt =====
-- The steps of crates/db-sim-core/src/resolve/displacement.rs: a quarter cell along the longer axis,
-- towards the goal.
use dungeon_barrage.Base.{
  ℕ, suc, ◌+◌, ◌*◌, ◌^◌, ◌<◌, ◌≤◌, ◌≡◌, ◌∙◌, ◌⊎◌, refl, ap, inl, inr, true, false, some, arith,
  Bool-cases, ◌&&◌, ◌||◌, ◌-◌, min, leb, leb→le, max, ℤ, pos, negsuc, ◌-ℤ◌, ◌*ℤ◌, sat_i32,
  sat_i32-IsI32, IsI32, in_i32, max_ℤ,
}
use dungeon_barrage.Fixed.{FixedPoint, scale}
use dungeon_barrage.Fixed.Divide.{abs, with_sign, scale_lem, abs-*ℤ}
use dungeon_barrage.Terrain.{is_zero}
use dungeon_barrage.Movement.{saturating_abs}
use dungeon_barrage.Resolve.Displacement.{sweep_step, step_toward, whole_step}

times_mono : (a b d : ℕ) → a ≤ b → a * d ≤ b * d
times_mono a b d h = grind arith

above : (q d : ℕ) → (q ≤ 256) ⊎ (257 * d ≤ q * d)
above q d = elim (Bool-cases (leb q 256)) [
  | inl low ↦ inl (omega (arith, leb→le q 256 low))
  | inr high ↦ inr (times_mono 257 q d (ground (arith, high)))
]

below : (q d : ℕ) → (256 ≤ q) ⊎ (q * d ≤ 255 * d)
below q d = elim (Bool-cases (leb 256 q)) [
  | inl high ↦ inl (omega (arith, leb→le 256 q high))
  | inr low ↦ inr (times_mono q 255 d (ground (arith, low)))
]

quotient_le :
    (v d q : ℕ)
    → 2 * (q * d) ≤ 2 * (v * 256) + d
    → v ≤ suc d
    → (v ≤ d) ⊎ (512 < d)
    → 0 < d
    → q ≤ 256
quotient_le v d q h k l p = grind (arith, above q d)

quotient_ge : (v d q : ℕ) → 2 * (v * 256) < 2 * (q * d) + d → d ≤ v → 256 ≤ q
quotient_ge v d q h k = grind (arith, below q d)

sign_of_product : (v : ℤ) (k : ℕ) → with_sign (v *ℤ pos 256) k ≡ with_sign v k
unfolding ◌*ℤ◌
sign_of_product (pos n) k = ground arith
sign_of_product (negsuc n) k = ground arith

-- A component of the step: towards the goal, never longer than a whole step, and that long if its
-- offset is.
pub record IsComponent (v : ℤ) (d : ℕ) (q : ℤ) : Type 0 where
  pub short : abs q ≤ 256
  pub toward : q ≡ with_sign v (abs q)
  pub whole : (abs q ≡ 256) ⊎ (abs v < d)

small-in_i32 : (q : ℤ) → abs q ≤ 256 → in_i32 q ≡ true
small-in_i32 (pos n) h = ground arith
small-in_i32 (negsuc n) h = ground arith

component :
    (v : ℤ) (d : ℕ)
    → IsI32 v
    → abs v ≤ suc d
    → (abs v ≤ d) ⊎ (512 < d)
    → 0 < d
    → d < 2 ^ 31
    → (q : ℤ) × (scale v (pos sweep_step) (pos d) ≡ some q) × IsComponent v d q
component v d h k l p i =
    let (q, near, e) = scale_lem v (pos sweep_step) d h (omega arith) (omega (arith, i)) p in
    let size : abs (v *ℤ pos 256) ≡ abs v * 256 = abs-*ℤ v (pos 256) in
    let short : abs q ≤ 256 =
      quotient_le (abs v) d (abs q) (omega (arith, near.at_most, size)) k l p in
    (
      q,
      e ∙ rw (small-in_i32 q short) refl,
      record {
        short = short;
        toward = near.signed ∙ sign_of_product v (abs q);
        whole = elim (Bool-cases (leb d (abs v))) [
          | inl long ↦ inl (
              omega (
                arith,
                short,
                quotient_ge (abs v) d (abs q) (omega (arith, near.at_least, size))
                    (leb→le d (abs v) long),
              ))
          | inr shorter ↦ inr (ground (arith, shorter))
        ];
      },
    )

whole_step-scaled :
    (dx dy step_x step_y : ℤ)
    → (abs step_x ≡ 256) ⊎ (abs step_y ≡ 256)
    → whole_step dx dy step_x step_y ≡ record { x = step_x; y = step_y }
unfolding whole_step
whole_step-scaled dx dy step_x step_y h = rw (moves step_x step_y h) refl
  where
    moves : (a b : ℤ) → (abs a ≡ 256) ⊎ (abs b ≡ 256) → (is_zero a && is_zero b) ≡ false
    moves (pos m) (pos n) h = ground (arith, h)
    moves (pos m) (negsuc n) h = ground (arith, h)
    moves (negsuc m) b h = refl

saturating_abs-abs : (v : ℤ) → IsI32 v → saturating_abs v ≡ pos (min (abs v) (2 ^ 31 - 1))
unfolding sat_i32
saturating_abs-abs (pos n) h = ground (arith, h)
saturating_abs-abs (negsuc n) h = ground (arith, h)

-- The length that both offsets are scaled by.
abbrev dominant : ℤ → ℤ → ℕ
dominant dx dy = max (min (abs dx) (2 ^ 31 - 1)) (min (abs dy) (2 ^ 31 - 1))

dominant_eq :
    (dx dy : ℤ)
    → IsI32 dx
    → IsI32 dy
    → max_ℤ (saturating_abs dx) (saturating_abs dy) ≡ pos (dominant dx dy)
dominant_eq dx dy h k = rw (saturating_abs-abs dx h, saturating_abs-abs dy k) (ground arith)

is_zero-none :
    (dx dy : ℤ)
    → 0 < abs dx + abs dy
    → (is_zero dx && is_zero dy || is_zero (pos (dominant dx dy))) ≡ false
is_zero-none (pos m) (pos n) h = ground (arith, h)
is_zero-none (pos m) (negsuc n) h = ground (arith, h)
is_zero-none (negsuc m) b h = ground (arith, h)

-- A step for the offsets of a goal: along each axis towards it, and a whole step along a longest one.
pub record IsStep (dx dy : ℤ) (step : FixedPoint) : Type 0 where
  pub x : IsComponent dx (dominant dx dy) step.x
  pub y : IsComponent dy (dominant dx dy) step.y
  pub whole : (abs step.x ≡ 256) ⊎ (abs step.y ≡ 256)

one_whole :
    (dx dy sx sy : ℤ)
    → IsI32 dx
    → IsI32 dy
    → IsComponent dx (dominant dx dy) sx
    → IsComponent dy (dominant dx dy) sy
    → (abs sx ≡ 256) ⊎ (abs sy ≡ 256)
one_whole dx dy sx sy h k a b = grind (arith, a.whole, b.whole)

size_le : (v : ℤ) → IsI32 v → abs v ≤ 2 ^ 31
size_le (pos n) h = omega (arith, h)
size_le (negsuc n) h = omega (arith, h)

-- Two different i32 points have a step between them, and it is one of a quarter cell.
pub step_toward-IsStep :
    (from to : FixedPoint)
    → 0 < abs (sat_i32 (to.x -ℤ from.x)) + abs (sat_i32 (to.y -ℤ from.y))
    → (step : FixedPoint) × (step_toward from to ≡ some step)
      × IsStep (sat_i32 (to.x -ℤ from.x)) (sat_i32 (to.y -ℤ from.y)) step
unfolding step_toward
step_toward-IsStep from to h =
    let dx = sat_i32 (to.x -ℤ from.x) in
    let dy = sat_i32 (to.y -ℤ from.y) in
    let ix : IsI32 dx = sat_i32-IsI32 (to.x -ℤ from.x) in
    let iy : IsI32 dy = sat_i32-IsI32 (to.y -ℤ from.y) in
    let bx = size_le dx ix in
    let by = size_le dy iy in
    let d = dominant dx dy in
    let (sx, ex, cx) =
      component dx d ix (omega (arith, bx)) (omega (arith, bx)) (omega (arith, h)) (omega arith) in
    let (sy, ey, cy) =
      component dy d iy (omega (arith, by)) (omega (arith, by)) (omega (arith, h)) (omega arith) in
    let whole = one_whole dx dy sx sy ix iy cx cy in
    (
      record { x = sx; y = sy },
      rw (dominant_eq dx dy ix iy, is_zero-none dx dy h, ex, ey)
          (ap some (whole_step-scaled dx dy sx sy whole)),
      record { x = cx; y = cy; whole = whole },
    )
