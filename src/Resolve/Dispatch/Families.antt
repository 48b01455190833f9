-- ===== src/Resolve/Dispatch/Families.antt =====
-- Each family of crates/db-sim-core/src/resolve/ keeps the frame of the match.
use dungeon_barrage.Base.{
  ℕ, ◌≡◌, ◌∙◌, refl, List, [], ◌∷◌, Option, none, some, arith, ℤ, Text, pos, leb_ℤ, filter,
}
use dungeon_barrage.Fixed.{FixedPoint, apply_basis_points, saturating_add}
use dungeon_barrage.Error.{SimError, SimResult, ok, err, unknown_definition}
use dungeon_barrage.Terrain.{is_solid_at}
use dungeon_barrage.Types.Ability
use dungeon_barrage.Types.Ability.{SpecialEffect, EffectKind}
use dungeon_barrage.Types.Player.{StatusEffect}
use dungeon_barrage.Types.State.{player}
use dungeon_barrage.Resolve.{ResolveContext, to_u16, living_opponent_ids, damage_entry}
use dungeon_barrage.Resolve.Support
use dungeon_barrage.Resolve.Support.{apply_heal, apply_backlash, transfer, resolve_health_transfer}
use dungeon_barrage.Resolve.Statuses
use dungeon_barrage.Resolve.Statuses.{afflict, afflict_all, is_hit, status_of}
use dungeon_barrage.Resolve.Displacement.{
  sweep, record_knockback, sweep_and_record, is_displacement_immune, step_toward, falloff,
}
use dungeon_barrage.Resolve.Displacement.Effects
use dungeon_barrage.Resolve.Displacement.Effects.{
  displace, displace_all, drag, resolve_pull, resolve_recoil, hurt_by_wall, strike_wall,
  strike_walls, threshold_bp, resolve_wall_impact, resolve_radial_displacement,
}
use dungeon_barrage.Resolve.Dispatch.Frame.{
  frame, SameFrame, KeepsFrame, frame-apply_heal, frame-apply_backlash, opt_step, if_step, opt_same,
  if_same, after_step,
}

-- The support family.
transfer-SameFrame : (ctx : ResolveContext) (id : Text) (n : ℕ) → SameFrame ctx (transfer ctx id n)
unfolding frame transfer damage_entry
transfer-SameFrame ctx id n = ground arith

health_transfer-KeepsFrame :
    (ctx : ResolveContext) (effect : SpecialEffect)
    → KeepsFrame ctx (resolve_health_transfer ctx effect)
unfolding resolve_health_transfer
health_transfer-KeepsFrame ctx effect =
    opt_step ctx ctx.primary_target_id _ _
      (frame-apply_heal ctx ctx.actor_id (to_u16 effect.magnitude))
      (λ id. transfer-SameFrame ctx id (to_u16 effect.magnitude))

pub support-KeepsFrame :
    (kind : EffectKind) (ctx : ResolveContext) (effect : SpecialEffect)
    → KeepsFrame ctx (Support.resolve_kind kind ctx effect)
unfolding Support.resolve_kind
support-KeepsFrame Ability.heal ctx effect = frame-apply_heal ctx _ (to_u16 effect.magnitude)
support-KeepsFrame Ability.health_transfer ctx effect = health_transfer-KeepsFrame ctx effect
support-KeepsFrame Ability.self_damage ctx effect = frame-apply_backlash ctx ctx.actor_id _
support-KeepsFrame _ ctx effect = tt

-- The statuses.
afflict-SameFrame :
    (ctx next : ResolveContext) (id : Text) (status : StatusEffect)
    → afflict ctx id status ≡ some next
    → SameFrame ctx next
unfolding frame afflict
afflict-SameFrame ctx next id status h = ground arith

afflict_all-SameFrame :
    (ids : List Text) (ctx : ResolveContext) (status : StatusEffect)
    → SameFrame ctx (afflict_all ctx ids status)
unfolding afflict_all
afflict_all-SameFrame [] ctx status = refl
afflict_all-SameFrame (id ∷ ids) ctx status =
    go (afflict ctx id status) (λ next e. afflict-SameFrame ctx next id status e)
      (λ next. afflict_all-SameFrame ids next status)
  where
    go :
        (o : Option ResolveContext)
        → ((next : ResolveContext) → o ≡ some next → SameFrame ctx next)
        → ((next : ResolveContext) → SameFrame next (afflict_all next ids status))
        → SameFrame ctx (afflict_all (elim o [ none ↦ ctx | some after ↦ after ]) ids status)
    go none h k = k ctx
    go (some next) h k = k next ∙ h next refl

afflict-KeepsFrame :
    (ctx : ResolveContext) (id : Text) (status : StatusEffect) (e : SimError)
    → KeepsFrame ctx (elim (afflict ctx id status) [ none ↦ err e | some after ↦ ok after ])
unfolding frame afflict
afflict-KeepsFrame ctx id status e = ground arith

pub statuses-KeepsFrame :
    (kind : EffectKind) (ctx : ResolveContext) (effect : SpecialEffect)
    → KeepsFrame ctx (Statuses.resolve_kind kind ctx effect)
unfolding frame Statuses.resolve_kind
statuses-KeepsFrame Ability.chill ctx effect =
    opt_step ctx ctx.primary_target_id _ _
      (afflict_all-SameFrame (filter (is_hit ctx) (living_opponent_ids ctx)) ctx
        (status_of Ability.chill effect))
      (λ id. afflict-KeepsFrame ctx id (status_of Ability.chill effect) unknown_definition)
statuses-KeepsFrame Ability.lockdown ctx effect =
    opt_step ctx ctx.primary_target_id _ _ tt
      (λ id. afflict-KeepsFrame ctx id (status_of Ability.lockdown effect) unknown_definition)
statuses-KeepsFrame Ability.embers ctx effect = refl
statuses-KeepsFrame _ ctx effect = tt

-- The displacements.
sweep_and_record-KeepsFrame :
    (ctx : ResolveContext) (id : Text) (from step : FixedPoint) (distance : ℤ)
    → KeepsFrame ctx (sweep_and_record ctx id from step distance)
unfolding frame sweep_and_record sweep record_knockback damage_entry
sweep_and_record-KeepsFrame ctx id from step distance = ground arith

displace-KeepsFrame :
    (effect : SpecialEffect) (ctx : ResolveContext) (target : Text × ℤ)
    → KeepsFrame ctx (displace effect ctx target)
unfolding displace
displace-KeepsFrame effect ctx (id, d) = if_step ctx (is_displacement_immune ctx id) _ _ refl (
    opt_step ctx (falloff effect.magnitude d effect.magnitude_secondary) _ _ refl (λ distance.
      if_step ctx (leb_ℤ distance (pos 0)) _ _ refl (
        opt_step ctx (player ctx.state id) _ _ refl (λ p.
          opt_step ctx (step_toward ctx.impact_point p.position) _ _ refl
            (λ step. sweep_and_record-KeepsFrame ctx id p.position step distance)))))

drag-KeepsFrame :
    (ctx : ResolveContext) (id : Text) (from to : FixedPoint) (d : ℤ)
    → KeepsFrame ctx (drag ctx id from to d)
unfolding drag
drag-KeepsFrame ctx id from to d = if_step ctx (is_displacement_immune ctx id) _ _ refl (
    opt_step ctx (step_toward from to) _ _ refl
      (λ step. sweep_and_record-KeepsFrame ctx id from step d))

displace_all-KeepsFrame :
    (effect : SpecialEffect) (ctx : ResolveContext) (targets : List (Text × ℤ))
    → KeepsFrame ctx (displace_all effect ctx targets)
unfolding displace_all
displace_all-KeepsFrame effect ctx [] = refl
displace_all-KeepsFrame effect ctx (target ∷ targets) =
    go (displace effect ctx target) (displace-KeepsFrame effect ctx target)
      (λ next. displace_all-KeepsFrame effect next targets)
  where
    go :
        (r : SimResult ResolveContext)
        → KeepsFrame ctx r
        → ((next : ResolveContext) → KeepsFrame next (displace_all effect next targets))
        → KeepsFrame ctx
            (elim r [ err failure ↦ err failure | ok after ↦ displace_all effect after targets ])
    go (ok next) h k = after_step ctx next (displace_all effect next targets) h (k next)
    go (err e) h k = tt

pull-KeepsFrame :
    (ctx : ResolveContext) (effect : SpecialEffect) → KeepsFrame ctx (resolve_pull ctx effect)
unfolding resolve_pull
pull-KeepsFrame ctx effect = opt_step ctx ctx.primary_target_id _ _ refl λ id.
    opt_step ctx (player ctx.state id) _ _ refl λ target.
      opt_step ctx (player ctx.state ctx.actor_id) _ _ tt λ actor.
        opt_step ctx
          (apply_basis_points (pos target.max_health) (threshold_bp effect.magnitude_secondary)) _ _
          tt
          λ hp.
            if_step ctx (leb_ℤ (pos target.health) hp) _ _
              (drag-KeepsFrame ctx id target.position actor.position effect.magnitude)
              (drag-KeepsFrame ctx ctx.actor_id actor.position target.position effect.magnitude)

recoil-KeepsFrame :
    (ctx : ResolveContext) (effect : SpecialEffect) → KeepsFrame ctx (resolve_recoil ctx effect)
unfolding resolve_recoil
recoil-KeepsFrame ctx effect = if_step ctx (is_displacement_immune ctx ctx.actor_id) _ _ refl (
    opt_step ctx (player ctx.state ctx.actor_id) _ _ tt λ actor.
      opt_step ctx (step_toward ctx.impact_point actor.position) _ _ refl
        λ step. sweep_and_record-KeepsFrame ctx ctx.actor_id actor.position step effect.magnitude)

hurt_by_wall-SameFrame :
    (n : ℕ) (ctx : ResolveContext) (id : Text) → SameFrame ctx (hurt_by_wall n ctx id)
unfolding frame hurt_by_wall damage_entry
hurt_by_wall-SameFrame n ctx id = ground arith

strike_wall-SameFrame :
    (n : ℕ) (ctx : ResolveContext) (id : Text) → SameFrame ctx (strike_wall n ctx id)
unfolding strike_wall
strike_wall-SameFrame n ctx id = opt_same ctx (player ctx.state id) _ _ refl λ p.
    opt_same ctx (step_toward ctx.impact_point p.position) _ _ refl λ step.
      if_same ctx (is_solid_at ctx.state.terrain (saturating_add p.position step)) _ _
        (hurt_by_wall-SameFrame n ctx id) refl

strike_walls-SameFrame :
    (n : ℕ) (ctx : ResolveContext) (ids : List Text) → SameFrame ctx (strike_walls n ctx ids)
unfolding strike_walls
strike_walls-SameFrame n ctx [] = refl
strike_walls-SameFrame n ctx (id ∷ ids) =
    strike_walls-SameFrame n (strike_wall n ctx id) ids ∙ strike_wall-SameFrame n ctx id

wall_impact-KeepsFrame :
    (ctx : ResolveContext) (effect : SpecialEffect)
    → KeepsFrame ctx (resolve_wall_impact ctx effect)
unfolding resolve_wall_impact
wall_impact-KeepsFrame ctx effect = grind (arith, strike_walls-SameFrame)

pub displacement-KeepsFrame :
    (kind : EffectKind) (ctx : ResolveContext) (effect : SpecialEffect)
    → KeepsFrame ctx (Effects.resolve_kind kind ctx effect)
unfolding Effects.resolve_kind resolve_radial_displacement
displacement-KeepsFrame Ability.knockback ctx effect = displace_all-KeepsFrame effect ctx _
displacement-KeepsFrame Ability.push ctx effect = displace_all-KeepsFrame effect ctx _
displacement-KeepsFrame Ability.pull ctx effect = pull-KeepsFrame ctx effect
displacement-KeepsFrame Ability.recoil ctx effect = recoil-KeepsFrame ctx effect
displacement-KeepsFrame Ability.wall_impact ctx effect = wall_impact-KeepsFrame ctx effect
displacement-KeepsFrame _ ctx effect = tt
