-- ===== src/Movement.antt =====
-- crates/db-sim-core/src/movement.rs: walking, jumping and falling, in steps of a quarter cell.
pub mod Path
pub mod Walk
pub mod Vertical
pub mod Fall
use dungeon_barrage.Base.{
  ℕ, zero, suc, ◌+◌, ◌-◌, ◌*◌, ◌^◌, Bool, true, false, not, List, [], ◌∷◌, map, ◌&&◌, ◌||◌, Option,
  none, some, if◌then◌else◌, ltb, ◌==◌, min, any, ℤ, pos, negsuc, ◌+ℤ◌, ◌-ℤ◌, ◌*ℤ◌, neg, leb_ℤ,
  ltb_ℤ, min_ℤ, max_ℤ, sat_i32, sat_i64, Text,
}
use dungeon_barrage.Error.{SimResult, ok, err, unknown_definition}
use dungeon_barrage.Fixed.{FixedPoint, position_scale, round_divide, to_cells}
use dungeon_barrage.Types.Ability.{lockdown, kind_eq}
use dungeon_barrage.Types.Player.{PlayerState, StatusEffect, is_eliminated}
use dungeon_barrage.Types.Terrain.{TerrainMask}
use dungeon_barrage.Types.State.{SimulationState, player, update_player}
use dungeon_barrage.Terrain.{is_solid_at, is_zero}

abbrev pub move_step : ℕ
move_step = 256

abbrev pub max_walk_steps : ℕ
max_walk_steps = 2_048

unfoldable pub is_locked_down : SimulationState → Text → Bool
unfolding player kind_eq
is_locked_down s player_id = elim (player s player_id) [
  | none ↦ false
  | some p ↦ any (λ status. kind_eq status.kind lockdown && ltb 0 status.turns_remaining) p.statuses
]

-- `i32::saturating_abs`.
abbrev pub saturating_abs : ℤ → ℤ
saturating_abs (pos n) = sat_i32 (pos n)
saturating_abs (negsuc n) = sat_i32 (pos (suc n))

-- `u32::try_from(n).unwrap_or(u32::MAX)`.
abbrev pub to_u32 : ℤ → ℕ
to_u32 (pos n) = min n (2 ^ 32 - 1)
to_u32 (negsuc n) = 2 ^ 32 - 1

unfoldable pub steps_needed : ℤ → ℤ → ℕ
unfolding sat_i32 sat_i64 ◌+ℤ◌ ◌-ℤ◌ round_divide
steps_needed distance step_length =
    let length = max_ℤ step_length (pos 1) in
    let numerator = sat_i64 (saturating_abs distance +ℤ sat_i64 (length -ℤ pos 1)) in
    elim (round_divide numerator length) [ none ↦ 0 | some steps_wanted ↦ to_u32 steps_wanted ]

-- Where a step leads: straight on, or one cell up, if there is room.
unfoldable pub walk_target : TerrainMask → FixedPoint → ℤ → Option FixedPoint
unfolding is_solid_at sat_i32 ◌-ℤ◌
walk_target terrain position candidate_x =
    let flat : FixedPoint = record { x = candidate_x; y = position.y } in
    let raised : FixedPoint = record {
      x = candidate_x;
      y = sat_i32 (position.y -ℤ pos position_scale);
    } in
    if not (is_solid_at terrain flat)
    then some flat
    else if not (is_solid_at terrain raised)
    then some raised
    else none

abbrev pub step_len : ℤ → ℤ
step_len left = min_ℤ left (pos move_step)

-- Where one round of the loop leads, unless it breaks.
unfoldable pub step_target : TerrainMask → ℤ → FixedPoint → ℤ → Option FixedPoint
unfolding walk_target sat_i32 ◌+ℤ◌ ◌*ℤ◌
step_target terrain direction position left =
    if leb_ℤ left (pos 0)
    then none
    else walk_target terrain position (sat_i32 (position.x +ℤ sat_i32 (direction *ℤ step_len left)))

-- The loop of `walk`.
unfoldable pub walk_steps : ℕ → TerrainMask → ℤ → ℤ → FixedPoint → ℤ → FixedPoint × ℤ
walk_steps zero terrain direction budget position travelled = (position, travelled)
walk_steps (suc n) terrain direction budget position travelled =
    let left = sat_i32 (budget -ℤ travelled) in
    elim (step_target terrain direction position left) [
      | none ↦ (position, travelled)
      | some next ↦
          walk_steps n terrain direction budget next (sat_i32 (travelled +ℤ step_len left))
    ]

-- The rest of `walk`, with a positive budget: the state after it, and the distance.
unfoldable pub walk_on : SimulationState → Text → FixedPoint → ℤ → ℤ → SimulationState × ℤ
walk_on s player_id start direction budget =
    let steps = min (steps_needed budget (pos move_step)) max_walk_steps in
    let (position, travelled) = walk_steps steps s.terrain direction budget start (pos 0) in
    let moved = update_player s player_id (λ q. record q { position = position }) in
    (record moved { movement_remaining = sat_i32 (s.movement_remaining -ℤ travelled) }, travelled)

unfoldable pub walk : SimulationState → Text → ℤ → SimResult (SimulationState × ℤ)
walk s player_id dx = elim (player s player_id) [
  | none ↦ err unknown_definition
  | some p ↦
      let direction = if ltb_ℤ (pos 0) dx then pos 1 else negsuc 0 in
      let budget = min_ℤ (saturating_abs dx) (max_ℤ s.movement_remaining (pos 0)) in
      if is_locked_down s player_id || leb_ℤ budget (pos 0)
      then ok (s, pos 0)
      else ok (walk_on s player_id p.position direction budget)
]

abbrev pub jump_height : ℕ
jump_height = 2 * position_scale

abbrev pub max_fall_steps : ℕ
max_fall_steps = 4_096

-- Where one round of the loop of `jump` leads, unless it breaks.
unfoldable pub rise_target : TerrainMask → FixedPoint → ℤ → Option FixedPoint
unfolding is_solid_at sat_i32 ◌-ℤ◌
rise_target terrain position left =
    let candidate : FixedPoint = record {
      x = position.x;
      y = sat_i32 (position.y -ℤ step_len left);
    } in
    if leb_ℤ left (pos 0) || is_solid_at terrain candidate then none else some candidate

-- The loop of `jump`.
unfoldable pub jump_steps : ℕ → TerrainMask → FixedPoint → ℤ → FixedPoint × ℤ
unfolding rise_target sat_i32 ◌+ℤ◌ ◌-ℤ◌
jump_steps zero terrain position risen = (position, risen)
jump_steps (suc n) terrain position risen =
    let left = sat_i32 (pos jump_height -ℤ risen) in
    elim (rise_target terrain position left) [
      | none ↦ (position, risen)
      | some next ↦ jump_steps n terrain next (sat_i32 (risen +ℤ step_len left))
    ]

-- The rest of `jump`, for a player who is not locked down.
unfoldable pub jump_on : SimulationState → Text → FixedPoint → SimulationState × ℤ
unfolding jump_steps update_player steps_needed sat_i32 ◌-ℤ◌
jump_on s player_id start =
    let steps = min (steps_needed (pos jump_height) (pos move_step)) max_walk_steps in
    let (position, risen) = jump_steps steps s.terrain start (pos 0) in
    let moved = update_player s player_id (λ q. record q { position = position }) in
    (
      if ltb_ℤ (pos 0) risen
          then record moved {
            movement_remaining = sat_i32 (s.movement_remaining -ℤ pos position_scale);
          }
          else moved,
      risen,
    )

unfoldable pub jump : SimulationState → Text → SimResult (SimulationState × ℤ)
unfolding player is_locked_down jump_on
jump s player_id = elim (player s player_id) [
  | none ↦ err unknown_definition
  | some p ↦
      if is_locked_down s player_id then ok (s, pos 0) else ok (jump_on s player_id p.position)
]

unfoldable pub is_below_map : SimulationState → FixedPoint → Bool
unfolding to_cells
is_below_map s position = leb_ℤ (pos (min s.terrain.height (2 ^ 31 - 1))) (to_cells position).1

unfoldable pub can_stand_at : SimulationState → FixedPoint → Bool
unfolding is_solid_at sat_i32 ◌+ℤ◌
can_stand_at s position =
    let below : FixedPoint = record {
      x = position.x;
      y = sat_i32 (position.y +ℤ pos position_scale);
    } in
    not (is_solid_at s.terrain position) && is_solid_at s.terrain below

-- The loop of a fall: where it ends, and whether that is out of bounds.
unfoldable pub fall_steps : ℕ → SimulationState → FixedPoint → FixedPoint × Bool
unfolding is_below_map is_solid_at sat_i32 ◌+ℤ◌
fall_steps zero s position = (position, false)
fall_steps (suc n) s position =
    let candidate : FixedPoint = record {
      x = position.x;
      y = sat_i32 (position.y +ℤ pos move_step);
    } in
    elim (is_below_map s candidate) [
      | true ↦ (candidate, true)
      | false ↦ elim (is_solid_at s.terrain candidate) [
        | true ↦ (position, false)
        | false ↦ fall_steps n s candidate
      ]
    ]

unfoldable pub same_point : FixedPoint → FixedPoint → Bool
unfolding ◌-ℤ◌
same_point p q = is_zero (p.x -ℤ q.x) && is_zero (p.y -ℤ q.y)

-- The player after a fall.
abbrev pub fallen : FixedPoint → Bool → PlayerState → PlayerState
fallen position fell_out_of_bounds p = record p {
  position = position;
  health = if fell_out_of_bounds then 0 else p.health;
}

-- The body of the loop over the players, with the count of those that moved.
unfoldable pub settle_player : SimulationState → ℕ → Text → SimulationState × ℕ
unfolding player update_player is_eliminated can_stand_at fall_steps same_point
settle_player s moved id = elim (player s id) [
  | none ↦ (s, moved)
  | some p ↦
      if is_eliminated p || can_stand_at s p.position
      then (s, moved)
      else (let (position, fell_out_of_bounds) = fall_steps max_fall_steps s p.position in
          (
            update_player s id (fallen position fell_out_of_bounds),
            if same_point position p.position then moved else min (moved + 1) (2 ^ 32 - 1),
          ))
]

unfoldable pub settle_players : SimulationState → ℕ → List Text → SimulationState × ℕ
unfolding settle_player
settle_players s moved [] = (s, moved)
settle_players s moved (id ∷ ids) =
    let (next, count) = settle_player s moved id in settle_players next count ids

unfoldable pub settle : SimulationState → SimResult (SimulationState × ℕ)
unfolding settle_players
settle s = ok (settle_players s 0 (map (λ p. p.id) s.players))
