-- ===== src/Resolve/Displacement.antt =====
-- crates/db-sim-core/src/resolve/displacement.rs: knockback, push, pull, recoil and the bonus damage
-- of a wall.
pub mod Effects
pub mod Sweep
pub mod Step
use dungeon_barrage.Base.{
  ℕ, zero, suc, ◌+◌, ◌-◌, ◌^◌, Bool, true, false, not, ◌&&◌, ◌||◌, List, [], ◌∷◌, map, filter, any,
  Option, none, some, if◌then◌else◌, ltb, min, ◌==◌, ℤ, pos, pos_part, neg, ◌+ℤ◌, ◌-ℤ◌, ◌*ℤ◌, leb_ℤ,
  ltb_ℤ, max_ℤ, in_i32, sat_i32, sat_i64, div_trunc, Text, text,
}
use dungeon_barrage.Base.Opt.{◌>>=◌}
use dungeon_barrage.Fixed.{
  FixedPoint, basis_points, apply_basis_points, distance_squared, round_divide, scale,
  saturating_add, saturating_sub,
}
use dungeon_barrage.Error.{SimResult, ok, err, unknown_definition, overflow}
use dungeon_barrage.Types.Ability.{
  SpecialEffect, EffectKind, knockback, push, pull, recoil, wall_impact, lockdown, kind_eq,
  base_attack,
}
use dungeon_barrage.Types.Terrain.{TerrainMask}
use dungeon_barrage.Types.Player.{PlayerState}
use dungeon_barrage.Types.Outcome.{DamageEvent}
use dungeon_barrage.Types.State.{player, update_player}
use dungeon_barrage.Terrain.{is_solid_at, is_zero}
use dungeon_barrage.Movement.{saturating_abs, to_u32}
use dungeon_barrage.Resolve.{ResolveContext, damage_entry, living_opponent_ids, add_u16}

abbrev pub sweep_step : ℕ
sweep_step = 256

abbrev pub default_pull_threshold_bp : ℕ
default_pull_threshold_bp = 5_000

abbrev pub max_sweep_steps : ℕ
max_sweep_steps = 512

unfoldable pub is_displacement_immune : ResolveContext → Text → Bool
unfolding player kind_eq
is_displacement_immune ctx player_id = elim (player ctx.state player_id) [
  | none ↦ false
  | some p ↦ any (λ status. kind_eq status.kind lockdown && ltb 0 status.turns_remaining) p.statuses
]

-- A whole step along one axis, in the direction of an offset.
abbrev pub step_along : ℤ → ℤ
step_along d = if ltb_ℤ d (pos 0) then neg (pos sweep_step) else pos sweep_step

-- The scaled step, or a step along the dominant axis if both components round to zero.
unfoldable pub whole_step : ℤ → ℤ → ℤ → ℤ → FixedPoint
unfolding neg
whole_step dx dy step_x step_y =
    if is_zero step_x && is_zero step_y
    then if leb_ℤ (saturating_abs dy) (saturating_abs dx)
      then record { x = step_along dx; y = pos 0 }
      else record { x = pos 0; y = step_along dy }
    else record { x = step_x; y = step_y }

unfoldable pub step_toward : FixedPoint → FixedPoint → Option FixedPoint
unfolding sat_i32 ◌-ℤ◌ scale whole_step
step_toward from to =
    let dx = sat_i32 (to.x -ℤ from.x) in
    let dy = sat_i32 (to.y -ℤ from.y) in
    let dominant = max_ℤ (saturating_abs dx) (saturating_abs dy) in
    if is_zero dx && is_zero dy || is_zero dominant then none else (do
      step_x ← scale dx (pos sweep_step) dominant
      step_y ← scale dy (pos sweep_step) dominant
      some (whole_step dx dy step_x step_y))

-- How many steps a sweep may take.
unfoldable pub sweep_count : FixedPoint → ℤ → ℕ
unfolding sat_i32 sat_i64 ◌+ℤ◌ ◌-ℤ◌ round_divide
sweep_count step distance =
    let step_length = max_ℤ (max_ℤ (saturating_abs step.x) (saturating_abs step.y)) (pos 1) in
    let numerator = sat_i64 (saturating_abs distance +ℤ sat_i64 (step_length -ℤ pos 1)) in
    elim (round_divide numerator step_length) [
      | none ↦ 0
      | some steps_wanted ↦ min (to_u32 steps_wanted) max_sweep_steps
    ]

-- The loop of `sweep`.
unfoldable pub sweep_steps : ℕ → TerrainMask → FixedPoint → FixedPoint → FixedPoint
unfolding is_solid_at saturating_add
sweep_steps zero terrain step position = position
sweep_steps (suc n) terrain step position =
    elim (is_solid_at terrain (saturating_add position step)) [
      | true ↦ position
      | false ↦ sweep_steps n terrain step (saturating_add position step)
    ]

-- The context after it, and where the player landed.
unfoldable pub sweep :
    ResolveContext → Text → FixedPoint → ℤ → SimResult (ResolveContext × FixedPoint)
unfolding player update_player sweep_count sweep_steps
sweep ctx player_id step distance = elim (player ctx.state player_id) [
  | none ↦ err unknown_definition
  | some p ↦
      let position = sweep_steps (sweep_count step distance) ctx.state.terrain step p.position in
      ok (
        record ctx {
          state = update_player ctx.state player_id (λ q. record q { position = position });
        },
        position,
      )
]

unfoldable pub record_knockback : ResolveContext → Text → FixedPoint → FixedPoint → ResolveContext
unfolding damage_entry saturating_add saturating_sub
record_knockback ctx player_id from to =
    damage_entry ctx player_id
      (λ e. record e { knockback = saturating_add e.knockback (saturating_sub to from) })

-- `i32::try_from(n).unwrap_or(BASIS_POINTS)`.
abbrev pub ratio_bp : ℤ → ℤ
ratio_bp n = if in_i32 n then n else pos basis_points

unfoldable pub falloff : ℤ → ℤ → ℤ → Option ℤ
unfolding sat_i64 ◌*ℤ◌ ◌-ℤ◌ div_trunc apply_basis_points
falloff magnitude distance_sq radius =
    let radius_sq = sat_i64 (radius *ℤ radius) in
    let remaining_sq = sat_i64 (radius_sq -ℤ distance_sq) in
    let share = div_trunc (sat_i64 (remaining_sq *ℤ pos basis_points)) (pos_part radius_sq) in
    if leb_ℤ radius (pos 0)
    then some magnitude
    else if ltb_ℤ radius_sq distance_sq || is_zero radius_sq
    then none
    else apply_basis_points magnitude (ratio_bp share)

-- Whether a target at a squared distance is within the radius, which is no limit from zero down.
unfoldable pub is_reached : ℤ → ℤ → Bool
unfolding sat_i64 ◌*ℤ◌
is_reached radius distance_sq =
    leb_ℤ radius (pos 0) || leb_ℤ distance_sq (sat_i64 (radius *ℤ radius))

unfoldable pub collect_targets : ResolveContext → ℤ → List Text → List (Text × ℤ)
unfolding player distance_squared is_reached
collect_targets ctx radius [] = []
collect_targets ctx radius (id ∷ ids) =
    let rest = collect_targets ctx radius ids in
    elim (player ctx.state id) [
      | none ↦ rest
      | some p ↦
          let distance_sq = distance_squared p.position ctx.impact_point in
          if is_reached radius distance_sq then (id, distance_sq) ∷ rest else rest
    ]

unfoldable pub targets_in_radius : ResolveContext → ℤ → List (Text × ℤ)
unfolding collect_targets living_opponent_ids
targets_in_radius ctx radius = collect_targets ctx radius (living_opponent_ids ctx)

-- A sweep of a player from a position, and the record of it.
unfoldable pub sweep_and_record :
    ResolveContext → Text → FixedPoint → FixedPoint → ℤ → SimResult ResolveContext
unfolding sweep record_knockback
sweep_and_record ctx id from step distance = elim (sweep ctx id step distance) [
  | err failure ↦ err failure
  | ok (after, result) ↦ ok (record_knockback after id from result)
]
