-- ===== src/Command/Attack/Frame.antt =====
-- The direct attack of crates/db-sim-core/src/command.rs keeps the frame of the match.
use dungeon_barrage.Base.{
  ℕ, zero, suc, ◌+◌, ◌∙◌, refl, Bool, false, List, [], ◌∷◌, Option, none, some, arith, max, ltb,
  if◌then◌else◌, Text,
}
use dungeon_barrage.Fixed.{FixedPoint, player_collision_center}
use dungeon_barrage.Error.{SimResult, ok, err}
use dungeon_barrage.Types.Ability.{
  AbilityDefinition, Attack, ProjectileAttack, StrikeAttack, TerrainProfile, untouched, crater, dig,
}
use dungeon_barrage.Types.Terrain.{subtract_circle, subtract_capsule}
use dungeon_barrage.Types.Player.{PlayerState}
use dungeon_barrage.Types.Outcome.{
  AbilityCommand, StrikeDelivery, BallisticResult, is_critical, invalid_target,
}
use dungeon_barrage.Ballistics.{integrate}
use dungeon_barrage.Resolve.{ResolveContext, damage_entry}
use dungeon_barrage.Resolve.Dispatch.Frame.{frame, SameFrame, frame-carve, if_same}
use dungeon_barrage.Command.{Checked, valid, refused, ◌>>=◌}
use dungeon_barrage.Command.Attack.{
  Action, traced_by, DamageField, direct_damage, backlash_damage, deal_damage,
  resolve_crit_for_target, resolved_damage_hp, strike_target, is_character, nearest_center, others,
  hitboxes, apply_terrain_profile, land_projectile, fire_projectiles, resolve_strike_point,
  strike_targets, strike_each, strike_rounds, strike_in_reach, resolve_attack, apply_backlash,
}

abbrev pub SameAction : Action → Action → Type 0
SameAction a b = SameFrame a.context b.context

abbrev pub KeepsAction : Action → Checked Action → Type 0
KeepsAction a (valid b) = SameAction a b
KeepsAction a (refused e) = Unit

deal_damage-SameFrame :
    (ctx : ResolveContext) (id : Text) (n : ℕ) (field : DamageField) (critical : Bool)
    → SameFrame ctx (deal_damage ctx id n field critical).0
unfolding frame deal_damage damage_entry
deal_damage-SameFrame ctx id n field critical = ground arith

crit-SameFrame :
    (ctx : ResolveContext) (id : Text) (ability : AbilityDefinition)
    → SameFrame ctx (resolve_crit_for_target ctx id ability).1
unfolding frame resolve_crit_for_target
crit-SameFrame ctx id ability = ground arith

strike_target-SameAction :
    (ability : AbilityDefinition) (point : FixedPoint) (delivery : StrikeDelivery) (a : Action)
    (id : Text)
    → SameAction a (strike_target ability point delivery a id)
unfolding strike_target
strike_target-SameAction ability point delivery a id =
    let (crit, rolled) = resolve_crit_for_target a.context id ability in
    deal_damage-SameFrame rolled id (resolved_damage_hp ability (is_critical crit)) direct_damage
      (is_critical crit)
    ∙ crit-SameFrame a.context id ability

profile-SameFrame :
    (profile : TerrainProfile) (origin impact : FixedPoint) (ctx : ResolveContext)
    → SameFrame ctx (apply_terrain_profile profile origin impact ctx)
unfolding apply_terrain_profile
profile-SameFrame untouched origin impact ctx = refl
profile-SameFrame (crater radius) origin impact ctx =
    frame-carve ctx (subtract_circle impact radius)
profile-SameFrame (dig radius length_cells) origin impact ctx =
    frame-carve ctx (subtract_capsule origin impact radius)

land_projectile-SameAction :
    (ability : AbilityDefinition) (attack : ProjectileAttack) (origin : FixedPoint) (sequence : ℕ)
    (a : Action) (r : BallisticResult)
    → SameAction a (land_projectile ability attack origin sequence a r)
unfolding land_projectile
land_projectile-SameAction ability attack origin sequence a r = go (
    if is_character r.impact.cause
    then nearest_center r.impact.position (others a.context)
    else none)
  where
    traced : Action
    traced = traced_by sequence a r

    struck_by : Option PlayerState → Action
    struck_by o = elim o [
      | none ↦ traced
      | some p ↦
          strike_target ability r.impact.position (StrikeDelivery.projectile sequence) traced p.id
    ]

    go :
        (o : Option PlayerState)
        → SameFrame a.context
            (apply_terrain_profile attack.terrain origin r.impact.position (struck_by o).context)
    go none = profile-SameFrame attack.terrain origin r.impact.position traced.context
    go (some p) =
        profile-SameFrame attack.terrain origin r.impact.position (struck_by (some p)).context
        ∙ strike_target-SameAction ability r.impact.position (StrikeDelivery.projectile sequence)
            traced p.id

fire_projectiles-KeepsAction :
    (n : ℕ) (c : AbilityCommand) (ability : AbilityDefinition) (attack : ProjectileAttack)
    (origin : FixedPoint) (sequence : ℕ) (a : Action)
    → KeepsAction a (fire_projectiles n c ability attack origin sequence a)
unfolding fire_projectiles
fire_projectiles-KeepsAction zero c ability attack origin sequence a = refl
fire_projectiles-KeepsAction (suc n) c ability attack origin sequence a =
    go
      (integrate
        (record {
          origin = player_collision_center origin;
          angle_millidegrees = c.angle_millidegrees;
          power_basis_points = c.power_basis_points;
          wind_per_tick = a.context.state.wind_per_tick;
        })
        attack a.context.state.terrain (hitboxes a.context))
      (λ r.
        after a (land_projectile ability attack origin sequence a r) _
          (land_projectile-SameAction ability attack origin sequence a r)
          (fire_projectiles-KeepsAction n c ability attack origin (sequence + 1)
            (land_projectile ability attack origin sequence a r)))
  where
    next : BallisticResult → Checked Action
    next r =
        fire_projectiles n c ability attack origin (sequence + 1)
          (land_projectile ability attack origin sequence a r)

    after : (a b : Action) (r : Checked Action) → SameAction a b → KeepsAction b r → KeepsAction a r
    after a b (valid d) h k = k ∙ h
    after a b (refused e) h k = tt

    go :
        (o : SimResult BallisticResult)
        → ((r : BallisticResult) → KeepsAction a (next r))
        → KeepsAction a (elim o [ err _ ↦ refused invalid_target | ok r ↦ next r ])
    go (ok r) h = h r
    go (err e) h = tt

strike_each-SameAction :
    (ability : AbilityDefinition) (point : FixedPoint) (ids : List Text) (a : Action)
    → SameAction a (strike_each ability point ids a)
unfolding strike_each
strike_each-SameAction ability point [] a = refl
strike_each-SameAction ability point (id ∷ ids) a =
    strike_each-SameAction ability point ids (strike_target ability point StrikeDelivery.melee a id)
    ∙ strike_target-SameAction ability point StrikeDelivery.melee a id

strike_rounds-SameAction :
    (n : ℕ) (ability : AbilityDefinition) (point : FixedPoint) (ids : List Text) (a : Action)
    → SameAction a (strike_rounds n ability point ids a)
unfolding strike_rounds
strike_rounds-SameAction zero ability point ids a = refl
strike_rounds-SameAction (suc n) ability point ids a =
    strike_rounds-SameAction n ability point ids (strike_each ability point ids a)
    ∙ strike_each-SameAction ability point ids a

strike_in_reach-KeepsAction :
    (c : AbilityCommand) (ability : AbilityDefinition) (strike : StrikeAttack) (origin : FixedPoint)
    (a : Action)
    → KeepsAction a (strike_in_reach c ability strike origin a)
unfolding strike_in_reach
strike_in_reach-KeepsAction c ability strike origin a =
    go (resolve_strike_point a.context.state c strike origin)
  where
    at_point : FixedPoint → Action
    at_point point = record a { context = record a.context { impact_point = point } }

    struck : FixedPoint → Action
    struck point =
        strike_rounds (max ability.strikes_per_turn 1) ability point
          (strike_targets a.context c strike point) (at_point point)

    go :
        (o : Checked FixedPoint)
        → KeepsAction a (
            o >>= λ point. valid (record (struck point) {
              context = apply_terrain_profile strike.terrain origin point (struck point).context;
            }))
    go (refused e) = tt
    go (valid point) =
        profile-SameFrame strike.terrain origin point (struck point).context
        ∙ strike_rounds-SameAction (max ability.strikes_per_turn 1) ability point
            (strike_targets a.context c strike point) (at_point point)

pub resolve_attack-KeepsAction :
    (attack : Attack) (c : AbilityCommand) (ability : AbilityDefinition) (origin : FixedPoint)
    (a : Action)
    → KeepsAction a (resolve_attack attack c ability origin a)
unfolding resolve_attack
resolve_attack-KeepsAction (Attack.projectile attack) c ability origin a =
    fire_projectiles-KeepsAction (max ability.strikes_per_turn 1) c ability attack origin 0 a
resolve_attack-KeepsAction (Attack.strike strike) c ability origin a =
    strike_in_reach-KeepsAction c ability strike origin a

pub apply_backlash-SameFrame :
    (attack : Attack) (ctx : ResolveContext) → SameFrame ctx (apply_backlash attack ctx)
unfolding apply_backlash
apply_backlash-SameFrame (Attack.projectile attack) ctx = refl
apply_backlash-SameFrame (Attack.strike strike) ctx =
    if_same ctx (ltb 0 strike.self_damage)
      (deal_damage ctx ctx.actor_id strike.self_damage backlash_damage false).0 ctx
      (deal_damage-SameFrame ctx ctx.actor_id strike.self_damage backlash_damage false) refl
