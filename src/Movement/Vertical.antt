-- ===== src/Movement/Vertical.antt =====
-- How far `jump` of crates/db-sim-core/src/movement.rs rises.
use dungeon_barrage.Base.{
  ℕ, zero, suc, ◌+◌, ◌-◌, ◌^◌, ◌≤◌, ◌≡◌, refl, ap, sym, ◌∙◌, ◌⊎◌, inl, inr, true, false, ◌||◌, none,
  some, negsuc, neg_part, min, arith, Bool, Bool-cases, ℤ, pos, ◌-ℤ◌, sat_i32, IsI32, Text,
  if◌then◌else◌, ltb, leb, ◌<◌, ◌%◌, leb_ℤ, ltb_ℤ, ◌*◌,
}
use dungeon_barrage.Error.{ok}
use dungeon_barrage.Fixed.{FixedPoint, position_scale}
use dungeon_barrage.Types.Player.{PlayerState}
use dungeon_barrage.Types.Terrain.{TerrainMask}
use dungeon_barrage.Types.State.{SimulationState, player, update_player}
use dungeon_barrage.Types.Lookup.{player-update_player}
use dungeon_barrage.Terrain.{is_solid_at}
use dungeon_barrage.Movement.{
  move_step, max_walk_steps, jump_height, is_locked_down, steps_needed, step_len, rise_target,
  jump_steps, jump_on, jump,
}
use dungeon_barrage.Movement.Path.{sat-left, sum-step}

-- Straight up, by as much as the loop counts.
unfoldable pub raised : FixedPoint → ℕ → FixedPoint
unfolding ◌-ℤ◌
raised start risen = record { x = start.x; y = start.y -ℤ pos risen }

-- Room for a whole jump above the smallest coordinate.
abbrev pub HasRoom : FixedPoint → Type 0
HasRoom start = IsI32 start.y × (neg_part start.y + jump_height ≤ 2 ^ 31)

sub_twice : (y : ℤ) (r l : ℕ) → y -ℤ pos r -ℤ pos l ≡ y -ℤ pos (r + l)
unfolding ◌-ℤ◌
sub_twice (pos n) r l = ground arith
sub_twice (negsuc n) r l = ground arith

sub-IsI32 : (y : ℤ) (k : ℕ) → IsI32 y → neg_part y + k ≤ 2 ^ 31 → sat_i32 (y -ℤ pos k) ≡ y -ℤ pos k
unfolding ◌-ℤ◌ sat_i32
sub-IsI32 (pos n) k i h = ground (arith, i, h)
sub-IsI32 (negsuc n) k i h = ground (arith, i, h)

-- The height after one more round.
abbrev pub higher : ℕ → ℕ
higher risen = risen + min (jump_height - risen) move_step

next_up :
    (start : FixedPoint) (risen : ℕ)
    → HasRoom start
    → risen ≤ jump_height
    → sat_i32 (start.y -ℤ pos risen -ℤ step_len (pos (jump_height - risen)))
      ≡ start.y -ℤ pos (higher risen)
next_up start risen room h =
    let least : step_len (pos (jump_height - risen)) ≡ pos (min (jump_height - risen) move_step) =
      ground arith in
    ap (λ l. sat_i32 (start.y -ℤ pos risen -ℤ l)) least
    ∙ ap sat_i32 (sub_twice start.y risen (min (jump_height - risen) move_step))
    ∙ sub-IsI32 start.y (higher risen) room.0 (omega (arith, room.1, h))

-- A round of the loop goes on if some of the height is left and the next cell is open.
rise_once :
    (terrain : TerrainMask) (start : FixedPoint) (risen : ℕ)
    → HasRoom start
    → risen ≤ jump_height
    → rise_target terrain (raised start risen) (pos (jump_height - risen)) ≡ (
        if leb_ℤ (pos (jump_height - risen)) (pos 0)
          || is_solid_at terrain (raised start (higher risen))
        then none
        else some (raised start (higher risen)))
unfolding rise_target raised
rise_once terrain start risen room h = rw (next_up start risen room h) refl

-- Every quarter cell of the way up, from one height to another, is open.
abbrev pub IsOpen : TerrainMask → FixedPoint → ℕ → ℕ → Type 0
IsOpen terrain start low high =
    (h : ℕ) → low < h → h ≤ high → h % 256 ≡ 0 → is_solid_at terrain (raised start h) ≡ false

-- Where the loop of `jump` ends: straight up through open cells, at the whole height or under a ceiling.
pub record Rises (terrain : TerrainMask) (start : FixedPoint) (end : ℕ) : Type 0 where
  pub at_most : end ≤ jump_height
  pub open_way : IsOpen terrain start 0 end
  pub stopped : (end ≡ jump_height) ⊎ (is_solid_at terrain (raised start (higher end)) ≡ true)

jump_steps-Rises :
    (n : ℕ) (terrain : TerrainMask) (start : FixedPoint) (risen : ℕ)
    → HasRoom start
    → risen ≤ jump_height
    → jump_height ≤ risen + n * move_step
    → risen % 256 ≡ 0
    → IsOpen terrain start 0 risen
    → (end : ℕ) × (jump_steps n terrain (raised start risen) (pos risen)
        ≡ (raised start end, pos end))
      × Rises terrain start end
unfolding jump_steps
jump_steps-Rises zero terrain start risen room h enough even way =
    (risen, refl, record { at_most = h; open_way = way; stopped = inl (omega (arith, h, enough)) })
jump_steps-Rises (suc n) terrain start risen room h enough even way =
    let target =
      ap (rise_target terrain (raised start risen)) (sat-left jump_height risen h (omega arith))
      ∙ rise_once terrain start risen room h in
    elim (Bool-cases (
      leb_ℤ (pos (jump_height - risen)) (pos 0)
      || is_solid_at terrain (raised start (higher risen)))) [
        | inl stop ↦ (
          risen,
          rw (jump_steps, target, stop) refl,
          record {
            at_most = h;
            open_way = way;
            stopped = ended risen h (is_solid_at terrain (raised start (higher risen))) stop;
          },
        )
        | inr go ↦
            let (end, e, rises) =
              jump_steps-Rises n terrain start (higher risen) room (omega (arith, h))
                (omega (arith, enough)) (omega (arith, even, h))
                (open_higher terrain start risen way
                  (clear risen h (is_solid_at terrain (raised start (higher risen))) go) even) in
            (
              end,
              rw (jump_steps, target, go) (rw (sum-step jump_height risen h (omega arith)) e),
              rises,
            )
      ]
  where
    ended :
        (risen : ℕ)
        → risen ≤ jump_height
        → (wall : Bool) → (leb_ℤ (pos (jump_height - risen)) (pos 0) || wall) ≡ true
        → (risen ≡ jump_height) ⊎ (wall ≡ true)
    ended risen h true e = inr refl
    ended risen h false e = inl (ground (arith, h, e))

    clear :
        (risen : ℕ)
        → risen ≤ jump_height
        → (wall : Bool) → (leb_ℤ (pos (jump_height - risen)) (pos 0) || wall) ≡ false
        → wall ≡ false
    clear risen h true e = ground (arith, e)
    clear risen h false e = refl

    lt_of : (a b : ℕ) → leb a b ≡ false → b < a
    lt_of a b e = ground (arith, e)

    open_higher :
        (terrain : TerrainMask) (start : FixedPoint) (risen : ℕ)
        → IsOpen terrain start 0 risen
        → is_solid_at terrain (raised start (higher risen)) ≡ false
        → risen % 256 ≡ 0
        → IsOpen terrain start 0 (higher risen)
    open_higher terrain start risen way free even h low high whole =
        elim (Bool-cases (leb h risen)) [
          | inl below ↦ way h low (ground (arith, below)) whole
          | inr above ↦
              let last : higher risen ≡ h = omega (arith, lt_of h risen above, high, whole, even) in
              ap (λ k. is_solid_at terrain (raised start k)) (sym last) ∙ free
        ]

-- The rounds that `jump` grants are enough for its height.
rounds :
    (n : ℕ) × (min (steps_needed (pos jump_height) (pos move_step)) max_walk_steps ≡ n)
    × (jump_height ≤ n * move_step)
unfolding steps_needed
rounds = (9, refl, omega arith)

-- What is left of the allowance: a cell less, unless the jump did not leave the ground.
abbrev pub charged : ℤ → ℕ → ℤ
unfolding sat_i32 ◌-ℤ◌
charged remaining risen =
    if ltb 0 risen then sat_i32 (remaining -ℤ pos position_scale) else remaining

-- The state after a jump to a position.
abbrev jumped : SimulationState → Text → FixedPoint → ℕ → SimulationState
jumped s id position risen = record s {
  players = (update_player s id (λ q. record q { position = position })).players;
  movement_remaining = charged s.movement_remaining risen;
}

-- What `jump` makes of the end of its loop.
landing : SimulationState → Text → FixedPoint × ℤ → SimulationState × ℤ
unfolding sat_i32 ◌-ℤ◌ update_player
landing s id r =
    let moved = update_player s id (λ q. record q { position = r.0 }) in
    (
      if ltb_ℤ (pos 0) r.1
          then record moved {
            movement_remaining = sat_i32 (s.movement_remaining -ℤ pos position_scale);
          }
          else moved,
      r.1,
    )

landing-jumped :
    (s : SimulationState) (id : Text) (position : FixedPoint) (risen : ℕ)
    → landing s id (position, pos risen) ≡ (jumped s id position risen, pos risen)
unfolding landing update_player
landing-jumped s id position risen = elim (Bool-cases (ltb 0 risen)) [
  | inl up ↦ rw (rising risen up, up) refl
  | inr held ↦ rw (grounded risen held, held) refl
]
  where
    rising : (n : ℕ) → ltb 0 n ≡ true → ltb_ℤ (pos 0) (pos n) ≡ true
    rising n h = ground (arith, h)

    grounded : (n : ℕ) → ltb 0 n ≡ false → ltb_ℤ (pos 0) (pos n) ≡ false
    grounded n h = ground (arith, h)

on_the_ground : (start : FixedPoint) → raised start 0 ≡ start
unfolding raised
on_the_ground start = ap (λ y. record start { y = y }) (sub_zero start.y)
  where
    sub_zero : (y : ℤ) → y -ℤ pos 0 ≡ y
    sub_zero (pos n) = unfold ◌-ℤ◌ in ground arith
    sub_zero (negsuc n) = unfold ◌-ℤ◌ in ground arith

jump_on-jumped :
    (s : SimulationState) (id : Text) (start : FixedPoint)
    → HasRoom start
    → (risen : ℕ) × (jump_on s id start ≡ (jumped s id (raised start risen) risen, pos risen))
      × Rises s.terrain start risen
unfolding jump_on landing
jump_on-jumped s id start room =
    let (n, count, enough) = rounds in
    let (risen, e, rises) =
      jump_steps-Rises n s.terrain start 0 room (omega arith) (omega (arith, enough)) refl
        (λ h low high whole. absurd (omega (arith, low, high))) in
    (
      risen,
      ap (λ k. landing s id (jump_steps k s.terrain start (pos 0))) count
          ∙ ap (λ q. landing s id (jump_steps n s.terrain q (pos 0))) (sym (on_the_ground start))
          ∙ ap (landing s id) e
          ∙ landing-jumped s id (raised start risen) risen,
      rises,
    )

-- A jump of a known player who is not locked down, with room above, succeeds: it ends straight up, two
-- cells at most, through open cells on every quarter cell of the way, and lower only under a solid cell. If
-- it rises at all it takes a cell off the allowance, as the code does and its comments deny.
pub jump-Rises :
    (s : SimulationState) (id : Text) (p : PlayerState)
    → player s id ≡ some p
    → is_locked_down s id ≡ false
    → HasRoom p.position
    → (t : SimulationState) × (risen : ℕ) × (jump s id ≡ ok (t, pos risen))
      × Rises s.terrain p.position risen
      × (player t id ≡ some (record p { position = raised p.position risen }))
      × (t.movement_remaining ≡ charged s.movement_remaining risen)
unfolding jump
jump-Rises s id p found free room =
    let (risen, e, rises) = jump_on-jumped s id p.position room in
    (
      jumped s id (raised p.position risen) risen,
      risen,
      rw (jump, found, free) (ap ok e),
      rises,
      player-update_player id (λ q. record q { position = raised p.position risen }) (λ q. refl) s p
          found,
      refl,
    )
