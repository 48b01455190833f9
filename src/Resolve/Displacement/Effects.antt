-- ===== src/Resolve/Displacement/Effects.antt =====
-- crates/db-sim-core/src/resolve/displacement.rs: the effects of the family, over sweeps.
use dungeon_barrage.Base.{
  ℕ, ◌-◌, ◌^◌, Bool, true, not, ◌&&◌, List, [], ◌∷◌, map, filter, none, some, if◌then◌else◌, min,
  ◌==◌, ℤ, pos, pos_part, leb_ℤ, ltb_ℤ, Text, text,
}
use dungeon_barrage.Fixed.{FixedPoint, apply_basis_points, scale, saturating_add}
use dungeon_barrage.Error.{SimResult, ok, err, unknown_definition, overflow}
use dungeon_barrage.Types.Ability.{
  SpecialEffect, EffectKind, knockback, push, pull, recoil, wall_impact, base_attack,
}
use dungeon_barrage.Types.Outcome.{DamageEvent}
use dungeon_barrage.Types.State.{player, update_player}
use dungeon_barrage.Terrain.{is_solid_at, is_zero}
use dungeon_barrage.Resolve.{ResolveContext, damage_entry, add_u16}
use dungeon_barrage.Resolve.Displacement.{
  default_pull_threshold_bp, is_displacement_immune, step_toward, falloff, targets_in_radius,
  sweep_and_record,
}

-- One target of a radial displacement.
unfoldable pub displace : SpecialEffect → ResolveContext → Text × ℤ → SimResult ResolveContext
unfolding is_displacement_immune falloff player step_toward sweep_and_record
displace effect ctx (id, distance_sq) =
    if is_displacement_immune ctx id
    then ok ctx
    else elim (falloff effect.magnitude distance_sq effect.magnitude_secondary) [
      | none ↦ ok ctx
      | some distance ↦ if leb_ℤ distance (pos 0) then ok ctx else elim (player ctx.state id) [
        | none ↦ ok ctx
        | some p ↦ elim (step_toward ctx.impact_point p.position) [
          | none ↦ ok ctx
          | some step ↦ sweep_and_record ctx id p.position step distance
        ]
      ]
    ]

unfoldable pub displace_all :
    SpecialEffect → ResolveContext → List (Text × ℤ) → SimResult ResolveContext
unfolding displace
displace_all effect ctx [] = ok ctx
displace_all effect ctx (target ∷ targets) = elim (displace effect ctx target) [
  | err failure ↦ err failure
  | ok after ↦ displace_all effect after targets
]

unfoldable pub resolve_radial_displacement :
    ResolveContext → SpecialEffect → SimResult ResolveContext
unfolding displace_all targets_in_radius
resolve_radial_displacement ctx effect =
    displace_all effect ctx (targets_in_radius ctx effect.magnitude_secondary)

-- The end of `resolve_pull`: a player is dragged from one position towards another.
unfoldable pub drag : ResolveContext → Text → FixedPoint → FixedPoint → ℤ → SimResult ResolveContext
unfolding is_displacement_immune step_toward sweep_and_record
drag ctx id from to distance =
    if is_displacement_immune ctx id then ok ctx else elim (step_toward from to) [
      | none ↦ ok ctx
      | some step ↦ sweep_and_record ctx id from step distance
    ]

unfoldable pub threshold_bp : ℤ → ℤ
threshold_bp magnitude =
    if ltb_ℤ (pos 0) magnitude then magnitude else pos default_pull_threshold_bp

unfoldable pub resolve_pull : ResolveContext → SpecialEffect → SimResult ResolveContext
unfolding player threshold_bp apply_basis_points drag
resolve_pull ctx effect = elim ctx.primary_target_id [
  | none ↦ ok ctx
  | some target_id ↦ elim (player ctx.state target_id) [
    | none ↦ ok ctx
    | some target ↦ elim (player ctx.state ctx.actor_id) [
      | none ↦ err unknown_definition
      | some actor ↦
          elim (apply_basis_points (pos target.max_health)
            (threshold_bp effect.magnitude_secondary)) [
              | none ↦ err (overflow (text "pull.threshold"))
              | some threshold_hp ↦
                  if leb_ℤ (pos target.health) threshold_hp
                  then drag ctx target_id target.position actor.position effect.magnitude
                  else drag ctx ctx.actor_id actor.position target.position effect.magnitude
            ]
    ]
  ]
]

unfoldable pub resolve_recoil : ResolveContext → SpecialEffect → SimResult ResolveContext
unfolding is_displacement_immune player step_toward sweep_and_record
resolve_recoil ctx effect =
    if is_displacement_immune ctx ctx.actor_id
    then ok ctx
    else elim (player ctx.state ctx.actor_id) [
      | none ↦ err unknown_definition
      | some actor ↦ elim (step_toward ctx.impact_point actor.position) [
        | none ↦ ok ctx
        | some step ↦ sweep_and_record ctx ctx.actor_id actor.position step effect.magnitude
      ]
    ]

abbrev pub is_displaced : DamageEvent → Bool
is_displaced e = not (is_zero e.knockback.x && is_zero e.knockback.y)

-- The bonus on a player, without a look at the wall.
unfoldable pub hurt_by_wall : ℕ → ResolveContext → Text → ResolveContext
unfolding damage_entry player update_player
hurt_by_wall bonus_hp ctx id =
    let struck =
      damage_entry ctx id (λ e. record e { wall_impact = add_u16 e.wall_impact bonus_hp }) in
    elim (player struck.state id) [
      | none ↦ struck
      | some p ↦
          let hurt : ResolveContext = record struck {
            state = update_player struck.state id (λ q. record q { health = q.health - bonus_hp });
          } in
          if p.health - bonus_hp == 0
          then damage_entry hurt id (λ e. record e { eliminated = true })
          else hurt
    ]

unfoldable pub strike_wall : ℕ → ResolveContext → Text → ResolveContext
unfolding player step_toward is_solid_at saturating_add hurt_by_wall
strike_wall bonus_hp ctx id = elim (player ctx.state id) [
  | none ↦ ctx
  | some p ↦ elim (step_toward ctx.impact_point p.position) [
    | none ↦ ctx
    | some step ↦
        if is_solid_at ctx.state.terrain (saturating_add p.position step)
        then hurt_by_wall bonus_hp ctx id
        else ctx
  ]
]

unfoldable pub strike_walls : ℕ → ResolveContext → List Text → ResolveContext
unfolding strike_wall
strike_walls bonus_hp ctx [] = ctx
strike_walls bonus_hp ctx (id ∷ ids) = strike_walls bonus_hp (strike_wall bonus_hp ctx id) ids

unfoldable pub resolve_wall_impact : ResolveContext → SpecialEffect → SimResult ResolveContext
unfolding scale strike_walls
resolve_wall_impact ctx effect = elim (scale (pos base_attack) effect.magnitude (pos 100)) [
  | none ↦ err (overflow (text "wall_impact.bonus"))
  | some bonus ↦
      let displaced = map (λ entry. entry.0) (filter (λ entry. is_displaced entry.1) ctx.damage) in
      if leb_ℤ bonus (pos 0)
      then ok ctx
      else ok (strike_walls (min (pos_part bonus) (2 ^ 16 - 1)) ctx displaced)
]

unfoldable pub resolve_kind : EffectKind → ResolveContext → SpecialEffect → SimResult ResolveContext
unfolding resolve_radial_displacement resolve_pull resolve_recoil resolve_wall_impact
resolve_kind knockback ctx effect = resolve_radial_displacement ctx effect
resolve_kind push ctx effect = resolve_radial_displacement ctx effect
resolve_kind pull ctx effect = resolve_pull ctx effect
resolve_kind recoil ctx effect = resolve_recoil ctx effect
resolve_kind wall_impact ctx effect = resolve_wall_impact ctx effect
resolve_kind _ ctx effect = err unknown_definition

unfoldable pub resolve : ResolveContext → SpecialEffect → SimResult ResolveContext
unfolding resolve_kind
resolve ctx effect = resolve_kind effect.kind ctx effect
