-- ===== src/Movement/Fall.antt =====
-- Where `settle` of crates/db-sim-core/src/movement.rs lets a player fall to.
use mathlib.Core.Bool.{true≢false}
use dungeon_barrage.Base.{
  ℕ, zero, suc, ◌+◌, ◌-◌, ◌/◌, ◌==◌, ==_iff, ltb, ltb→lt, ◌^◌, ◌<◌, ◌≤◌, ◌≡◌, ◌≢◌, ◌∙◌, ◌⊎◌, refl,
  ap, sym, inl, inr, Bool, true, false, some, min, arith, Bool-cases, ℤ, pos, negsuc, ◌+ℤ◌, sat_i32,
  sat_i32-IsI32, IsI32, div_euclid, Text,
}
use dungeon_barrage.Fixed.{FixedPoint, to_cells}
use dungeon_barrage.Types.Player.{PlayerState, is_eliminated}
use dungeon_barrage.Types.Terrain.{TerrainMask, is_solid}
use dungeon_barrage.Types.State.{SimulationState, player}
use dungeon_barrage.Types.Lookup.{player-update_player}
use dungeon_barrage.Terrain.{material_at, is_solid_at}
use dungeon_barrage.Movement.{
  move_step, max_fall_steps, is_below_map, can_stand_at, fall_steps, fallen, settle_player,
}

-- A quarter cell lower, and a number of such steps lower.
unfoldable pub lower : FixedPoint → FixedPoint
unfolding sat_i32 ◌+ℤ◌
lower p = record { x = p.x; y = sat_i32 (p.y +ℤ pos move_step) }

unfoldable pub dropped : FixedPoint → ℕ → FixedPoint
dropped p zero = p
dropped p (suc k) = dropped (lower p) k

sat_pos : (n k : ℕ) → n < 2 ^ 31 → sat_i32 (pos n +ℤ pos k) ≡ pos (min (n + k) (2 ^ 31 - 1))
unfolding sat_i32 ◌+ℤ◌
sat_pos n k h = ground arith

sat_neg : (n k : ℕ) → n < 2 ^ 31 → k ≤ n → sat_i32 (negsuc n +ℤ pos k) ≡ negsuc (n - k)
unfolding sat_i32 ◌+ℤ◌
sat_neg n k h l = ground arith

sat_across : (n k : ℕ) → n < k → k ≤ 1024 → sat_i32 (negsuc n +ℤ pos k) ≡ pos (k - suc n)
unfolding sat_i32 ◌+ℤ◌
sat_across n k h l = ground arith

different : (a b : ℕ) → (a == b) ≡ false → a ≢ b
different a b e = ground (arith, e)

-- Division by the size of a cell, for coordinates that grow and that shrink.
near_pos :
    (n : ℕ)
    → n < 2 ^ 31
    → (min (n + 256) (2 ^ 31 - 1) / 1024 ≡ n / 1024)
      ⊎ (min (n + 1024) (2 ^ 31 - 1) / 1024 ≡ min (n + 256) (2 ^ 31 - 1) / 1024)
near_pos n h = elim (Bool-cases (min (n + 256) (2 ^ 31 - 1) / 1024 == n / 1024)) [
  | inl same ↦ inl ((==_iff (min (n + 256) (2 ^ 31 - 1) / 1024) (n / 1024)).0 same)
  | inr other ↦ inr (omega (arith, different (min (n + 256) (2 ^ 31 - 1) / 1024) (n / 1024) other))
]

near_neg :
    (n : ℕ) → 1024 ≤ n → ((n - 256) / 1024 ≡ n / 1024) ⊎ ((n - 1024) / 1024 ≡ (n - 256) / 1024)
near_neg n h = elim (Bool-cases ((n - 256) / 1024 == n / 1024)) [
  | inl same ↦ inl ((==_iff ((n - 256) / 1024) (n / 1024)).0 same)
  | inr other ↦ inr (omega (arith, h, different ((n - 256) / 1024) (n / 1024) other))
]

under : {a b c d : ℕ} (f : ℕ → ℤ) → (a ≡ b) ⊎ (c ≡ d) → (f a ≡ f b) ⊎ (f c ≡ f d)
under f (inl e) = inl (ap f e)
under f (inr e) = inr (ap f e)

-- A quarter cell below lies in the same cell, or in that a whole cell below.
next_cell :
    (y : ℤ)
    → IsI32 y
    → (div_euclid (sat_i32 (y +ℤ pos 256)) 1024 ≡ div_euclid y 1024)
      ⊎ (div_euclid (sat_i32 (y +ℤ pos 1024)) 1024 ≡ div_euclid (sat_i32 (y +ℤ pos 256)) 1024)
unfolding div_euclid
next_cell (pos n) h =
    rw (sat_pos n 256 (omega (arith, h)), sat_pos n 1024 (omega (arith, h)))
      (under pos (near_pos n (omega (arith, h))))
next_cell (negsuc n) h = elim (Bool-cases (ltb n 256)) [
  | inl small ↦
      let k = ltb→lt n 256 small in
      rw (sat_across n 256 k (omega arith), sat_across n 1024 (omega (arith, k)) (omega arith))
        (inr (ap pos (omega (arith, k))))
  | inr large ↦ elim (Bool-cases (ltb n 1024)) [
    | inl middle ↦
        let k = ltb→lt n 1024 middle in
        let l : 256 ≤ n = ground (arith, large) in
        rw (sat_neg n 256 (omega (arith, h)) l) (inl (ap negsuc (omega (arith, k))))
    | inr high ↦
        let l : 1024 ≤ n = ground (arith, high) in
        rw
          (sat_neg n 256 (omega (arith, h)) (omega (arith, l)), sat_neg n 1024 (omega (arith, h)) l)
          (under negsuc (near_neg n l))
  ]
]

cell_solid : TerrainMask → ℤ → ℤ → Bool
unfolding material_at is_solid div_euclid
cell_solid mask x cell = is_solid (material_at mask (div_euclid x 1024) cell)

is_solid_at-cell :
    (mask : TerrainMask) (x y : ℤ)
    → is_solid_at mask (record { x = x; y = y }) ≡ cell_solid mask x (div_euclid y 1024)
unfolding is_solid_at to_cells cell_solid
is_solid_at-cell mask x y = refl

-- Above the first solid quarter cell a player stands.
lands :
    (s : SimulationState) (p : FixedPoint)
    → IsI32 p.y
    → is_solid_at s.terrain p ≡ false
    → is_solid_at s.terrain (lower p) ≡ true
    → can_stand_at s p ≡ true
unfolding can_stand_at lower
lands s p i free solid = elim (next_cell p.y i) [
  | inl same ↦ absurd (
      true≢false (
        sym solid
        ∙ is_solid_at-cell s.terrain p.x (sat_i32 (p.y +ℤ pos 256))
        ∙ ap (cell_solid s.terrain p.x) same
        ∙ sym (is_solid_at-cell s.terrain p.x p.y)
        ∙ free))
  | inr deeper ↦
      let ground' : is_solid_at s.terrain (record { x = p.x; y = sat_i32 (p.y +ℤ pos 1024) })
          ≡ true =
        is_solid_at-cell s.terrain p.x (sat_i32 (p.y +ℤ pos 1024))
        ∙ ap (cell_solid s.terrain p.x) deeper
        ∙ sym (is_solid_at-cell s.terrain p.x (sat_i32 (p.y +ℤ pos 256)))
        ∙ solid in
      rw (free, ground') refl
]

-- How a fall of at most `n` steps ends, straight down through open cells: below the map, which is
-- reported; or on the ground; or after all its steps.
pub record Landing (s : SimulationState) (start : FixedPoint) (n : ℕ) (result : FixedPoint × Bool)
    : Type 0 where
  pub steps : ℕ
  pub at_most : steps ≤ n
  pub straight : result.0 ≡ dropped start steps
  pub open_way :
      (j : ℕ)
      → j < steps
      → (is_solid_at s.terrain (dropped start (suc j)) ≡ false)
        ⊎ ((suc j ≡ steps) × (result.1 ≡ true))
  pub ended :
      ((result.1 ≡ true) × (is_below_map s result.0 ≡ true))
      ⊎ ((result.1 ≡ false) × ((can_stand_at s result.0 ≡ true) ⊎ (steps ≡ n)))

lower-IsI32 : (p : FixedPoint) → IsI32 (lower p).y
unfolding lower
lower-IsI32 p = sat_i32-IsI32 (p.y +ℤ pos move_step)

later :
    {s : SimulationState} {start : FixedPoint} {n : ℕ} {r : FixedPoint × Bool}
    → is_solid_at s.terrain (lower start) ≡ false
    → Landing s (lower start) n r
    → Landing s start (suc n) r
unfolding dropped
later {s} {start} {n} {r} free l = record {
  steps = suc l.steps;
  at_most = omega (arith, l.at_most);
  straight = l.straight;
  open_way = way;
  ended = elim l.ended [
    | inl out ↦ inl out
    | inr (held, inl stands) ↦ inr (held, inl stands)
    | inr (held, inr spent) ↦ inr (held, inr (ap suc spent))
  ];
}
  where
    way :
        (j : ℕ)
        → j < suc l.steps
        → (is_solid_at s.terrain (dropped start (suc j)) ≡ false)
          ⊎ ((suc j ≡ suc l.steps) × (r.1 ≡ true))
    way zero h = inl free
    way (suc j) h = elim (l.open_way j (omega (arith, h))) [
      | inl open' ↦ inl open'
      | inr (e, out) ↦ inr (ap suc e, out)
    ]

fall_steps-Landing :
    (n : ℕ) (s : SimulationState) (start : FixedPoint)
    → IsI32 start.y
    → is_solid_at s.terrain start ≡ false
    → Landing s start n (fall_steps n s start)
unfolding fall_steps dropped lower
fall_steps-Landing zero s start i free = record {
  steps = 0;
  at_most = omega arith;
  straight = refl;
  open_way = λ j h. absurd (omega (arith, h));
  ended = inr (refl, inr refl);
}
fall_steps-Landing (suc n) s start i free = elim (Bool-cases (is_below_map s (lower start))) [
  | inl below ↦
      rw (fall_steps, below)
        (record {
          steps = 1;
          at_most = omega arith;
          straight = refl;
          open_way = λ j h. inr (omega (arith, h), refl);
          ended = inl (refl, below);
        })
  | inr inside ↦ elim (Bool-cases (is_solid_at s.terrain (lower start))) [
    | inl solid ↦
        rw (fall_steps, inside, solid)
          (record {
            steps = 0;
            at_most = omega arith;
            straight = refl;
            open_way = λ j h. absurd (omega (arith, h));
            ended = inr (refl, inl (lands s start i free solid));
          })
    | inr open' ↦
        rw (fall_steps, inside, open')
          (later open' (fall_steps-Landing n s (lower start) (lower-IsI32 start) open'))
  ]
]

-- A living player in open space, at an i32 height and without ground below, falls straight down, through
-- open space on every quarter cell of the way: out of bounds, and then has no health left; or onto ground
-- to stand on; or by all 4,096 steps.
pub settle_player-Landing :
    (s : SimulationState) (moved : ℕ) (id : Text) (p : PlayerState)
    → player s id ≡ some p
    → is_eliminated p ≡ false
    → IsI32 p.position.y
    → is_solid_at s.terrain p.position ≡ false
    → can_stand_at s p.position ≡ false
    → (result : FixedPoint × Bool) × Landing s p.position max_fall_steps result
      × (player (settle_player s moved id).0 id ≡ some (fallen result.0 result.1 p))
unfolding settle_player
settle_player-Landing s moved id p found alive i free loose =
    let result = fall_steps max_fall_steps s p.position in
    (
      result,
      fall_steps-Landing max_fall_steps s p.position i free,
      rw (settle_player, found, alive, loose)
          (player-update_player id (fallen result.0 result.1) (λ q. refl) s p found),
    )
