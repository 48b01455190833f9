-- ===== src/Movement/Path.antt =====
-- The way of `walk` of crates/db-sim-core/src/movement.rs: which cells it leads through, and where it stops.
use dungeon_barrage.Base.{
  ℕ, zero, suc, ◌+◌, ◌-◌, ◌*◌, ◌^◌, ◌<◌, ◌≤◌, ◌≡◌, refl, ap, sym, ◌∙◌, ◌⊎◌, inl, inr, Bool, true,
  false, Option, none, some, if◌then◌else◌, min, arith, Bool-cases, ℤ, pos, negsuc, ◌+ℤ◌, ◌-ℤ◌,
  ◌*ℤ◌, leb_ℤ, leb, sat_i32, sat_i64, max_ℤ, subst,
}
use dungeon_barrage.Fixed.{FixedPoint, round_divide}
use dungeon_barrage.Fixed.Divide.{IsNearest, round_divide-IsNearest}
use dungeon_barrage.Types.Terrain.{TerrainMask}
use dungeon_barrage.Terrain.{is_solid_at}
use dungeon_barrage.Movement.{
  move_step, max_walk_steps, steps_needed, to_u32, saturating_abs, walk_target, step_len,
  step_target, walk_steps,
}

pub sat-left : (b t : ℕ) → t ≤ b → b < 2 ^ 31 → sat_i32 (pos b -ℤ pos t) ≡ pos (b - t)
unfolding sat_i32 ◌-ℤ◌
sat-left b t h k = ground arith

sat-sum : (t l : ℕ) → t + l < 2 ^ 31 → sat_i32 (pos t +ℤ pos l) ≡ pos (t + l)
unfolding sat_i32 ◌+ℤ◌
sat-sum t l h = ground arith

least : (k : ℕ) → step_len (pos k) ≡ pos (min k 256)
least k = ground arith

pub sum-step :
    (b t : ℕ)
    → t ≤ b
    → b < 2 ^ 31
    → sat_i32 (pos t +ℤ step_len (sat_i32 (pos b -ℤ pos t))) ≡ pos (t + min (b - t) 256)
sum-step b t h k = rw (sat-left b t h k) (
    ap (λ l. sat_i32 (pos t +ℤ l)) (least (b - t))
    ∙ sat-sum t (min (b - t) 256) (omega (arith, h, k)))

-- To the right or the left of a coordinate.
abbrev pub aside : Bool → ℤ → ℕ → ℤ
unfolding sat_i32 ◌+ℤ◌ ◌-ℤ◌
aside right x l = if right then sat_i32 (x +ℤ pos l) else sat_i32 (x -ℤ pos l)

abbrev pub flat_beside : Bool → FixedPoint → ℕ → FixedPoint
flat_beside right p l = record { x = aside right p.x l; y = p.y }

-- A cell higher up.
abbrev pub raised_beside : Bool → FixedPoint → ℕ → FixedPoint
unfolding sat_i32 ◌-ℤ◌
raised_beside right p l = record { x = aside right p.x l; y = sat_i32 (p.y -ℤ pos 1024) }

-- A step leads to the open place beside, or onto a ledge of one cell if that is solid.
abbrev pub IsStep : TerrainMask → Bool → FixedPoint → ℕ → FixedPoint → Type 0
IsStep terrain right p l q =
    (is_solid_at terrain q ≡ false)
    × ((q ≡ flat_beside right p l)
        ⊎ ((q ≡ raised_beside right p l) × (is_solid_at terrain (flat_beside right p l) ≡ true)))

-- Neither is open.
abbrev pub IsWalled : TerrainMask → Bool → FixedPoint → ℕ → Type 0
IsWalled terrain right p l =
    (is_solid_at terrain (flat_beside right p l) ≡ true)
    × (is_solid_at terrain (raised_beside right p l) ≡ true)

-- A way of some length, in steps of at most a quarter cell.
pub data Treads (terrain : TerrainMask) (right : Bool) : FixedPoint → ℕ → FixedPoint → Type 0 where
  stays : (p : FixedPoint) → Treads terrain right p 0 p
  goes :
      (p q r : FixedPoint) (l d : ℕ)
      → 0 < l
      → l ≤ 256
      → IsStep terrain right p l q
      → Treads terrain right q d r
      → Treads terrain right p (l + d) r

abbrev pub direction_of : Bool → ℤ
direction_of right = if right then pos 1 else negsuc 0

aside_lem :
    (right : Bool) (x : ℤ) (l : ℕ)
    → l ≤ 256
    → sat_i32 (x +ℤ sat_i32 (direction_of right *ℤ pos l)) ≡ aside right x l
unfolding sat_i32 ◌+ℤ◌ ◌-ℤ◌ ◌*ℤ◌
aside_lem true (pos a) l h = ground (arith, h)
aside_lem true (negsuc a) l h = ground (arith, h)
aside_lem false (pos a) zero h = ground (arith, h)
aside_lem false (negsuc a) zero h = ground (arith, h)
aside_lem false (pos a) (suc l) h = ground (arith, h)
aside_lem false (negsuc a) (suc l) h = ground (arith, h)

-- A round of the loop: the rest is used up, or there is a wall, or a step.
pub data Round (terrain : TerrainMask) (right : Bool) (p : FixedPoint)
    : ℕ → Option FixedPoint → Type 0 where
  used_up : Round terrain right p 0 none
  walled : (k : ℕ) → IsWalled terrain right p (min k 256) → Round terrain right p k none
  onward :
      (k : ℕ) (q : FixedPoint)
      → 0 < k
      → IsStep terrain right p (min k 256) q
      → Round terrain right p k (some q)

Round-none :
    {terrain : TerrainMask} {right : Bool} {p : FixedPoint} {k : ℕ}
    → Round terrain right p k none
    → (k ≡ 0) ⊎ IsWalled terrain right p (min k 256)
Round-none used_up = inl refl
Round-none (walled k w) = inr w

Round-some :
    {terrain : TerrainMask} {right : Bool} {p q : FixedPoint} {k : ℕ}
    → Round terrain right p k (some q)
    → (0 < k) × IsStep terrain right p (min k 256) q
Round-some (onward k q h st) = (h, st)

target-Round :
    (terrain : TerrainMask) (right : Bool) (p : FixedPoint) (k : ℕ)
    → 0 < k
    → Round terrain right p k (walk_target terrain p (aside right p.x (min k 256)))
unfolding walk_target
target-Round terrain right p k h =
    elim (Bool-cases (is_solid_at terrain (flat_beside right p (min k 256)))) [
      | inr free ↦ rw free (onward k (flat_beside right p (min k 256)) h (free, inl refl))
      | inl wall ↦ elim (Bool-cases (is_solid_at terrain (raised_beside right p (min k 256)))) [
        | inr free ↦
            rw (wall, free)
              (onward k (raised_beside right p (min k 256)) h (free, inr (refl, wall)))
        | inl high ↦ rw (wall, high) (walled k (wall, high))
      ]
    ]

step_target-Round :
    (terrain : TerrainMask) (right : Bool) (p : FixedPoint) (k : ℕ)
    → Round terrain right p k (step_target terrain (direction_of right) p (pos k))
unfolding step_target
step_target-Round terrain right p k = elim (Bool-cases (leb_ℤ (pos k) (pos 0))) [
  | inl spent ↦
      let none' : k ≡ 0 = ground (arith, spent) in
      rw spent (subst (λ n. Round terrain right p n none) (sym none') used_up)
  | inr left ↦
      let at =
        ap (λ l. sat_i32 (p.x +ℤ sat_i32 (direction_of right *ℤ l))) (least k)
        ∙ aside_lem right p.x (min k 256) (omega arith) in
      rw left (
        subst (λ x. Round terrain right p k (walk_target terrain p x)) (sym at)
          (target-Round terrain right p k (ground (arith, left))))
]

-- Where a walk stops, with a budget, from some distance on: with the budget used up, at a wall, or with all
-- its rounds.
abbrev pub Stops : TerrainMask → Bool → ℕ → ℕ → ℕ → FixedPoint → Type 0
Stops terrain right n b t q = (t ≡ b) ⊎ (IsWalled terrain right q (min (b - t) 256) ⊎ (n * 256 ≤ t))

-- How the rest of the loop goes.
abbrev pub Ends : TerrainMask → Bool → ℕ → ℕ → ℕ → FixedPoint → ℕ → Type 0
Ends terrain right n b t p done =
    (q : FixedPoint) × (d : ℕ) × (walk_steps n terrain (direction_of right) (pos b) p (pos t)
      ≡ (q, pos (t + d)))
    × (t + d ≤ b)
    × Treads terrain right p d q
    × Stops terrain right (done + n) b (t + d) q

next_done :
    (b t done : ℕ)
    → 0 < b - t
    → t ≤ b
    → (t ≡ b) ⊎ (done * 256 ≤ t)
    → (t + min (b - t) 256 ≡ b) ⊎ (suc done * 256 ≤ t + min (b - t) 256)
next_done b t done more h so_far = elim (Bool-cases (leb (b - t) 256)) [
  | inl last ↦ inl (omega (arith, h, small (b - t) last))
  | inr far ↦ inr (omega (arith, more, so_far, large (b - t) far))
]
  where
    small : (m : ℕ) → leb m 256 ≡ true → m ≤ 256
    small m e = ground (arith, e)

    large : (m : ℕ) → leb m 256 ≡ false → 256 < m
    large m e = ground (arith, e)

-- The loop never goes back, and never past the budget; it goes by steps, and stops for a reason.
pub walk_steps_lem :
    (n : ℕ) (terrain : TerrainMask) (right : Bool) (b t : ℕ) (p : FixedPoint) (done : ℕ)
    → t ≤ b
    → b < 2 ^ 31
    → (t ≡ b) ⊎ (done * 256 ≤ t)
    → Ends terrain right n b t p done
unfolding walk_steps
walk_steps_lem zero terrain right b t p done h k so_far = (
  p,
  0,
  ap (λ e. (p, pos e)) (omega arith),
  omega (arith, h),
  stays p,
  elim so_far [ inl e ↦ inl (omega (arith, e)) | inr e ↦ inr (inr (omega (arith, e))) ],
)
walk_steps_lem (suc n) terrain right b t p done h k so_far =
    let left = sat-left b t h k in
    go (step_target terrain (direction_of right) p (pos (b - t)))
      (ap (step_target terrain (direction_of right) p) left)
      (step_target-Round terrain right p (b - t))
      (λ u q done' m so_far'. walk_steps_lem n terrain right b u q done' m k so_far')
  where
    plus_zero : (m : ℕ) → m + 0 ≡ m
    plus_zero m = omega arith

    plus_assoc : (a c e : ℕ) → a + (c + e) ≡ a + c + e
    plus_assoc a c e = omega arith

    plus_suc : (a c : ℕ) → suc a + c ≡ a + suc c
    plus_suc a c = omega arith

    go :
        (o : Option FixedPoint)
        → step_target terrain (direction_of right) p (sat_i32 (pos b -ℤ pos t)) ≡ o
        → Round terrain right p (b - t) o
        → ((u : ℕ) (q : FixedPoint) (done' : ℕ)
            → u ≤ b
            → (u ≡ b) ⊎ (done' * 256 ≤ u)
            → Ends terrain right n b u q done')
        → Ends terrain right (suc n) b t p done
    go none e r ih = (
      p,
      0,
      rw (walk_steps, e) (ap (λ m. (p, pos m)) (omega arith)),
      omega (arith, h),
      stays p,
      elim (Round-none r) [
        | inl over ↦ inl (omega (arith, over, h))
        | inr wall ↦
            inr (
              inl
                (subst (λ m. IsWalled terrain right p (min (b - m) 256)) (sym (plus_zero t)) wall))
      ],
    )
    go (some q) e r ih =
        let (more, st) = Round-some r in
        let l = min (b - t) 256 in
        let later : (t + l ≡ b) ⊎ (suc done * 256 ≤ t + l) = next_done b t done more h so_far in
        let (end, d, same, most, way, stop) = ih (t + l) q (suc done) (omega (arith, h)) later in
        (
          end,
          l + d,
          rw (walk_steps, e) (rw (sum-step b t h k) (same ∙ ap (λ m. (end, pos m)) (omega arith))),
          omega (arith, most),
          goes p q end l d (omega (arith, more)) (omega arith) st way,
          subst (λ m. Stops terrain right (done + suc n) b m end) (sym (plus_assoc t l d))
              (subst (λ m. Stops terrain right m b (t + l + d) end) (plus_suc done n) stop),
        )

-- The rounds that `walk` grants are enough for its budget, up to 2,048.
pub rounds_lem :
    (b : ℕ)
    → b < 2 ^ 31
    → (b ≤ min (steps_needed (pos b) (pos move_step)) max_walk_steps * 256)
      ⊎ (min (steps_needed (pos b) (pos move_step)) max_walk_steps ≡ max_walk_steps)
rounds_lem b h =
    let (q, e, near) =
      round_divide-IsNearest (pos (b + 255)) 256 (omega arith) (omega (arith, h)) in
    let counted : steps_needed (pos b) (pos move_step) ≡ to_u32 q = counted_of b h q e in
    rw counted (many q near)
  where
    numerator :
        (b : ℕ)
        → b < 2 ^ 31
        → sat_i64 (saturating_abs (pos b) +ℤ sat_i64 (max_ℤ (pos move_step) (pos 1) -ℤ pos 1))
          ≡ pos (b + 255)
    numerator b h = unfold sat_i32 sat_i64 ◌+ℤ◌ ◌-ℤ◌ in ground (arith, h)

    count : Option ℤ → ℕ
    count o = elim o [ none ↦ 0 | some wanted ↦ to_u32 wanted ]

    counted_of :
        (b : ℕ)
        → b < 2 ^ 31
        → (q : ℤ) → round_divide (pos (b + 255)) (pos 256) ≡ some q
        → steps_needed (pos b) (pos move_step) ≡ to_u32 q
    counted_of b h q e =
        unfold steps_needed in
        (ap (λ n. count (round_divide n (pos 256))) (numerator b h) ∙ ap count e)

    full_of :
        (m : ℕ)
        → leb max_walk_steps m ≡ true
        → min (min m (2 ^ 32 - 1)) max_walk_steps ≡ max_walk_steps
    full_of m e = ground (arith, e)

    few_of : (m : ℕ) → leb max_walk_steps m ≡ false → m < 2048
    few_of m e = ground (arith, e)

    many :
        (q : ℤ)
        → IsNearest (pos (b + 255)) 256 q
        → (b ≤ min (to_u32 q) max_walk_steps * 256)
          ⊎ (min (to_u32 q) max_walk_steps ≡ max_walk_steps)
    many (pos m) near = elim (Bool-cases (leb max_walk_steps m)) [
      | inl full ↦ inr (full_of m full)
      | inr few ↦ inl (omega (arith, near.at_least, few_of m few))
    ]
    many (negsuc m) near = inr refl
