-- ===== src/Command/Attack.antt =====
-- crates/db-sim-core/src/command.rs: the direct attack of an ability, by projectiles or in reach.
pub mod Frame
use dungeon_barrage.Base.{
  ℕ, zero, suc, ◌+◌, ◌-◌, ◌^◌, Bool, true, false, not, ◌&&◌, ◌||◌, List, [], ◌∷◌, ◌++◌, map, filter,
  length, Option, none, some, if◌then◌else◌, ltb, ◌==◌, min, max, ℤ, pos, leb_ℤ, Text, text_eq,
}
use dungeon_barrage.Fixed.{
  FixedPoint, player_collision_center, player_collision_circle, player_collision_radius,
  within_radius, distance_squared,
}
use dungeon_barrage.Error.{SimResult, ok, err}
use dungeon_barrage.Types.Ability.{
  AbilityDefinition, damage, crit_damage, Attack, ProjectileAttack, StrikeAttack, TerrainProfile,
  untouched, crater, dig,
}
use dungeon_barrage.Types.Terrain.{subtract_circle, subtract_capsule}
use dungeon_barrage.Types.Player.{PlayerState, is_eliminated}
use dungeon_barrage.Types.State.{SimulationState, player, update_player}
use dungeon_barrage.Types.Outcome.{
  AbilityCommand, invalid_target, CritRoll, not_eligible, forced, is_critical, StrikeDelivery,
  StrikeResolution, ImpactCause, character, BallisticResult, ProjectileTrace,
}
use dungeon_barrage.Ballistics.{integrate}
use dungeon_barrage.Resolve.{ResolveContext, damage_entry, to_u16, add_u16}
use dungeon_barrage.Resolve.Support.{with_health}
use dungeon_barrage.Resolve.AttackMods.Hits.{
  consume_guarantee_crit, roll_strike, is_alive, is_down, index_u16,
}
use dungeon_barrage.Resolve.AttackMods.Carving.{carve}
use dungeon_barrage.Command.{Checked, valid, refused, ◌>>=◌, ◌>>◌, known, refuse_if}

pub data DamageField : Type 0 where
  direct_damage backlash_damage : DamageField

-- What an attack has done so far: the context that the effects will continue, the strikes and paths,
-- and the damage dealt to others.
pub record Action : Type 0 where
  pub context : ResolveContext
  pub strikes : List StrikeResolution
  pub traces : List ProjectileTrace
  pub dealt : ℕ

abbrev pub credited : DamageField → DamageField → ℕ → ℕ → ℕ
credited direct_damage direct_damage total actual = add_u16 total actual
credited backlash_damage backlash_damage total actual = add_u16 total actual
credited _ _ total actual = total

unfoldable pub deal_damage : ResolveContext → Text → ℕ → DamageField → Bool → ResolveContext × ℕ
unfolding player update_player damage_entry is_eliminated
deal_damage ctx player_id amount field critical =
    if amount == 0 then (ctx, 0) else elim (player ctx.state player_id) [
      | none ↦ (ctx, 0)
      | some p ↦
          let actual = min amount p.health in
          let eliminated_now = is_eliminated (record p { health = p.health - amount }) in
          let hurt = with_health ctx player_id (λ q. q.health - amount) in
          (
            damage_entry hurt player_id (λ e. record e {
              direct = credited direct_damage field e.direct actual;
              backlash = credited backlash_damage field e.backlash actual;
              was_critical = e.was_critical || critical;
              eliminated = eliminated_now;
            }),
            actual,
          )
    ]

unfoldable pub resolved_damage_hp : AbilityDefinition → Bool → ℕ
unfolding damage crit_damage
resolved_damage_hp ability critical =
    elim (if critical then crit_damage ability else damage ability) [
      | none ↦ 0
      | some value ↦ to_u16 value
    ]

unfoldable pub can_crit : AbilityDefinition → Bool
can_crit ability =
    ltb 0 ability.crit_chance_basis_points || ltb ability.damage_percent ability.crit_damage_percent

unfoldable pub resolve_crit_for_target :
    ResolveContext → Text → AbilityDefinition → CritRoll × ResolveContext
unfolding can_crit consume_guarantee_crit roll_strike
resolve_crit_for_target ctx target_id ability =
    let (is_forced, s, changes) = consume_guarantee_crit ctx.state ctx.status_changes target_id in
    let next = record ctx { state = s; status_changes = changes } in
    if not (can_crit ability)
    then (not_eligible, ctx)
    else if is_forced
    then (forced, next)
    else roll_strike next ability.crit_chance_basis_points

-- One strike at a target.
unfoldable pub strike_target :
    AbilityDefinition → FixedPoint → StrikeDelivery → Action → Text → Action
unfolding resolve_crit_for_target resolved_damage_hp deal_damage is_alive is_down is_critical
strike_target ability point delivery a target_id =
    let (crit, rolled) = resolve_crit_for_target a.context target_id ability in
    let hp = resolved_damage_hp ability (is_critical crit) in
    let was_alive = is_alive rolled.state target_id in
    let (hurt, actual) = deal_damage rolled target_id hp direct_damage (is_critical crit) in
    let resolution : StrikeResolution = record {
      strike_index = index_u16 (length a.strikes);
      target_player_id = target_id;
      impact_point = point;
      delivery = delivery;
      crit = crit;
      damage_applied = actual;
      eliminated_target = was_alive && is_down hurt.state target_id;
    } in
    record a {
      context = hurt;
      strikes = a.strikes ++ resolution ∷ [];
      dealt = min (a.dealt + actual) (2 ^ 32 - 1);
    }

-- The living players but the actor.
unfoldable pub others : ResolveContext → List PlayerState
unfolding is_eliminated text_eq
others ctx =
    filter (λ p. not (is_eliminated p) && not (text_eq p.id ctx.actor_id)) ctx.state.players

unfoldable pub hitboxes : ResolveContext → List (Text × FixedPoint × ℤ)
unfolding others player_collision_circle
hitboxes ctx =
    map (λ p. let (center, radius) = player_collision_circle p.position in (p.id, center, radius))
      (others ctx)

-- The nearest of the players within a body's radius of the impact, the first of equals.
unfoldable pub nearest_center : FixedPoint → List PlayerState → Option PlayerState
unfolding player_collision_center within_radius distance_squared
nearest_center impact [] = none
nearest_center impact (p ∷ ps) =
    let rest = nearest_center impact ps in
    let center = player_collision_center p.position in
    if within_radius center impact (pos player_collision_radius)
    then (elim rest [
      | none ↦ some p
      | some q ↦
          if leb_ℤ (distance_squared center impact)
            (distance_squared (player_collision_center q.position) impact)
          then some p
          else some q
    ])
    else rest

unfoldable pub is_character : ImpactCause → Bool
is_character character = true
is_character _ = false

unfoldable pub apply_terrain_profile :
    TerrainProfile → FixedPoint → FixedPoint → ResolveContext → ResolveContext
unfolding carve
apply_terrain_profile untouched origin impact ctx = ctx
apply_terrain_profile (crater radius) origin impact ctx = carve ctx (subtract_circle impact radius)
apply_terrain_profile (dig radius length_cells) origin impact ctx =
    carve ctx (subtract_capsule origin impact radius)

-- The path of a flight is kept, and its impact is where the effects will start.
abbrev pub traced_by : ℕ → Action → BallisticResult → Action
traced_by sequence a r = record a {
  context = record a.context { impact_point = r.impact.position };
  traces = a.traces ++ record { sequence = sequence; samples = r.samples; impact = r.impact } ∷ [];
}

-- The hit and the crater of a flight, by its number.
unfoldable pub land_projectile :
    AbilityDefinition → ProjectileAttack → FixedPoint → ℕ → Action → BallisticResult → Action
unfolding is_character nearest_center others strike_target apply_terrain_profile
land_projectile ability attack origin sequence a r =
    let impact = r.impact.position in
    let traced = traced_by sequence a r in
    let target : Option PlayerState =
      if is_character r.impact.cause then nearest_center impact (others a.context) else none in
    let struck : Action = elim target [
      | none ↦ traced
      | some p ↦ strike_target ability impact (StrikeDelivery.projectile sequence) traced p.id
    ] in
    record struck { context = apply_terrain_profile attack.terrain origin impact struck.context }

-- So many projectiles, from a number on.
unfoldable pub fire_projectiles :
    ℕ
    → AbilityCommand
    → AbilityDefinition
    → ProjectileAttack
    → FixedPoint
    → ℕ
    → Action
    → Checked Action
unfolding integrate hitboxes land_projectile player_collision_center
fire_projectiles zero c ability attack origin sequence a = valid a
fire_projectiles (suc n) c ability attack origin sequence a =
    elim (integrate
      (record {
        origin = player_collision_center origin;
        angle_millidegrees = c.angle_millidegrees;
        power_basis_points = c.power_basis_points;
        wind_per_tick = a.context.state.wind_per_tick;
      })
      attack a.context.state.terrain (hitboxes a.context)) [
        | err _ ↦ refused invalid_target
        | ok r ↦
            fire_projectiles n c ability attack origin (sequence + 1)
              (land_projectile ability attack origin sequence a r)
      ]

-- A strike acts at its target, which must be in reach, or else around the actor.
unfoldable pub resolve_strike_point :
    SimulationState → AbilityCommand → StrikeAttack → FixedPoint → Checked FixedPoint
unfolding player within_radius
resolve_strike_point s c strike origin = elim c.target_player_id [
  | none ↦ valid origin
  | some target_id ↦ do
    target ← known (player s target_id) invalid_target
    refuse_if (not (within_radius origin target.position strike.range)) invalid_target
    valid target.position
]

unfoldable pub strike_targets :
    ResolveContext → AbilityCommand → StrikeAttack → FixedPoint → List Text
unfolding others within_radius
strike_targets ctx c strike point = elim c.target_player_id [
  | some target_id ↦ target_id ∷ []
  | none ↦ map (λ p. p.id) (filter (λ p. within_radius p.position point strike.range) (others ctx))
]

unfoldable pub strike_each : AbilityDefinition → FixedPoint → List Text → Action → Action
unfolding strike_target
strike_each ability point [] a = a
strike_each ability point (id ∷ ids) a =
    strike_each ability point ids (strike_target ability point StrikeDelivery.melee a id)

unfoldable pub strike_rounds : ℕ → AbilityDefinition → FixedPoint → List Text → Action → Action
unfolding strike_each
strike_rounds zero ability point ids a = a
strike_rounds (suc n) ability point ids a =
    strike_rounds n ability point ids (strike_each ability point ids a)

unfoldable pub strike_in_reach :
    AbilityCommand → AbilityDefinition → StrikeAttack → FixedPoint → Action → Checked Action
unfolding resolve_strike_point strike_targets strike_rounds apply_terrain_profile
strike_in_reach c ability strike origin a = do
  point ← resolve_strike_point a.context.state c strike origin
  let ids = strike_targets a.context c strike point
  let struck =
      strike_rounds (max ability.strikes_per_turn 1) ability point ids
        (record a { context = record a.context { impact_point = point } })
  valid
      (record struck { context = apply_terrain_profile strike.terrain origin point struck.context })

unfoldable pub resolve_attack :
    Attack → AbilityCommand → AbilityDefinition → FixedPoint → Action → Checked Action
unfolding fire_projectiles strike_in_reach
resolve_attack (Attack.projectile attack) c ability origin a =
    fire_projectiles (max ability.strikes_per_turn 1) c ability attack origin 0 a
resolve_attack (Attack.strike strike) c ability origin a = strike_in_reach c ability strike origin a

-- The backlash of a strike's own damage.
unfoldable pub apply_backlash : Attack → ResolveContext → ResolveContext
unfolding deal_damage
apply_backlash (Attack.projectile attack) ctx = ctx
apply_backlash (Attack.strike strike) ctx =
    if ltb 0 strike.self_damage
    then (deal_damage ctx ctx.actor_id strike.self_damage backlash_damage false).0
    else ctx
