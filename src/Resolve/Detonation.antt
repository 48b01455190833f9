-- ===== src/Resolve/Detonation.antt =====
-- crates/db-sim-core/src/resolve/objects.rs: the chain of detonations of embedded knives.
pub mod Chain
use dungeon_barrage.Base.{
  ℕ, zero, suc, ◌*◌, ◌-◌, ◌^◌, Bool, not, ◌&&◌, ◌||◌, List, [], ◌∷◌, ◌++◌, map, filter, any, Option,
  none, some, if◌then◌else◌, ltb, ◌==◌, length, ℤ, pos, negsuc, Text, text,
}
use dungeon_barrage.Fixed.{FixedPoint, position_scale, scale, round_divide, within_radius}
use dungeon_barrage.Error.{SimResult, ok, err, out_of_range, overflow, ok_or, ◌>>=◌}
use dungeon_barrage.Types.Ability.{
  SpecialEffect, EffectKind, spawn_turret, embed_projectile, chain_detonate, base_attack,
}
use dungeon_barrage.Types.Terrain.{subtract_circle}
use dungeon_barrage.Types.Player.{is_eliminated, PersistentObject, detonated}
use dungeon_barrage.Types.State.{player, update_player}
use dungeon_barrage.Movement.{same_point}
use dungeon_barrage.Resolve.{ResolveContext, damage_entry, add_u16}
use dungeon_barrage.Resolve.Objects
use dungeon_barrage.Resolve.Objects.{is_embedded_knife, removed_by, with_objects}
use dungeon_barrage.Resolve.AttackMods.Carving.{carve}

abbrev pub knife_chain_trigger_radius : ℕ
knife_chain_trigger_radius = 6 * position_scale

-- A `BTreeMap` of positions by sequence, and a `BTreeSet` of sequences.
abbrev pub Knives : Type 0
Knives = List (ℕ × FixedPoint)

unfoldable pub insert_knife : ℕ → FixedPoint → Knives → Knives
insert_knife n p [] = (n, p) ∷ []
insert_knife n p ((m, q) ∷ knives) =
    let rest = insert_knife n p knives in
    if n == m then (n, p) ∷ knives else if ltb n m then (n, p) ∷ (m, q) ∷ knives else (m, q) ∷ rest

unfoldable pub knives_of : List PersistentObject → Knives → Knives
unfolding is_embedded_knife insert_knife
knives_of [] knives = knives
knives_of (o ∷ os) knives =
    knives_of os
      (if is_embedded_knife o.kind then insert_knife o.sequence o.position knives else knives)

abbrev pub position_of : ℕ → Knives → Option FixedPoint
position_of n [] = none
position_of n ((m, q) ∷ knives) = if m == n then some q else position_of n knives

abbrev pub contains : ℕ → List ℕ → Bool
contains n set = any (λ m. m == n) set

unfoldable pub insert_number : ℕ → List ℕ → List ℕ
insert_number n [] = n ∷ []
insert_number n (m ∷ ms) =
    let rest = insert_number n ms in
    if n == m then m ∷ ms else if ltb n m then n ∷ m ∷ ms else m ∷ rest

-- The knives of the list that pass a test join a set.
unfoldable pub add_knives : (ℕ × FixedPoint → Bool) → Knives → List ℕ → List ℕ
unfolding insert_number
add_knives joins [] set = set
add_knives joins (knife ∷ knives) set =
    add_knives joins knives (if joins knife then insert_number knife.0 set else set)

-- The last knife that stands at the impact.
unfoldable pub landing_knife : FixedPoint → Knives → Option (ℕ × FixedPoint)
unfolding same_point
landing_knife impact [] = none
landing_knife impact (knife ∷ knives) = elim (landing_knife impact knives) [
  | some later ↦ some later
  | none ↦ if same_point knife.1 impact then some knife else none
]

unfoldable pub apply_detonation_damage : ResolveContext → Text → ℕ → ResolveContext
unfolding player is_eliminated update_player damage_entry
apply_detonation_damage ctx player_id amount = elim (player ctx.state player_id) [
  | none ↦ ctx
  | some p ↦
      let left = p.health - amount in
      let hurt : ResolveContext = record ctx {
        state = update_player ctx.state player_id (λ q. record q { health = q.health - amount });
      } in
      if is_eliminated p
      then ctx
      else damage_entry hurt player_id (λ e. record e {
        splash = add_u16 e.splash (p.health - left);
        eliminated = e.eliminated || left == 0;
      })
]

unfoldable pub detonate_on : ResolveContext → List Text → ℕ → ResolveContext
unfolding apply_detonation_damage
detonate_on ctx [] amount = ctx
detonate_on ctx (id ∷ ids) amount = detonate_on (apply_detonation_damage ctx id amount) ids amount

unfoldable pub caught_ids : ResolveContext → FixedPoint → ℤ → List Text
unfolding is_eliminated within_radius
caught_ids ctx position radius =
    map (λ p. p.id)
      (filter (λ p. not (is_eliminated p) && within_radius position p.position radius)
        ctx.state.players)

-- The blast of one knife: the players that it catches, then its crater.
unfoldable pub blast : ResolveContext → FixedPoint → ℤ → ℕ → ℕ → ResolveContext
unfolding caught_ids detonate_on carve
blast ctx position radius damage cells =
    carve (detonate_on ctx (caught_ids ctx position radius) damage) (subtract_circle position cells)

-- What the loop keeps: the context, the knives that are to go off, and those that have.
pub record Burst : Type 0 where
  pub context : ResolveContext
  pub pending : List ℕ
  pub gone : List ℕ

-- Whether a blast sets off a knife.
abbrev pub is_set_off : ℕ → FixedPoint → ℤ → List ℕ → ℕ × FixedPoint → Bool
is_set_off n position radius gone knife =
    not (knife.0 == n) && (not (contains knife.0 gone) && within_radius position knife.1 radius)

-- A round with the lowest pending knife.
unfoldable pub detonate_first : ℤ → ℕ → ℕ → Knives → ResolveContext → ℕ → List ℕ → List ℕ → Burst
unfolding blast add_knives insert_number
detonate_first radius damage cells knives ctx n pending gone =
    let detonated = insert_number n gone in
    if contains n gone
    then record { context = ctx; pending = pending; gone = gone }
    else elim (position_of n knives) [
      | none ↦ record { context = ctx; pending = pending; gone = detonated }
      | some position ↦ record {
        context = blast ctx position radius damage cells;
        pending = add_knives (is_set_off n position radius detonated) knives pending;
        gone = detonated;
      }
    ]

-- The loop, on fuel.
unfoldable pub detonate_pending : ℕ → ℤ → ℕ → ℕ → Knives → ResolveContext → List ℕ → List ℕ → Burst
unfolding detonate_first
detonate_pending fuel radius damage cells knives ctx [] gone = record {
  context = ctx;
  pending = [];
  gone = gone;
}
detonate_pending zero radius damage cells knives ctx (n ∷ pending) gone = record {
  context = ctx;
  pending = n ∷ pending;
  gone = gone;
}
detonate_pending (suc fuel) radius damage cells knives ctx (n ∷ pending) gone =
    let next = detonate_first radius damage cells knives ctx n pending gone in
    detonate_pending fuel radius damage cells knives next.context next.pending next.gone

-- `u16::try_from`.
abbrev pub to_u16_or : ℤ → Text → SimResult ℕ
to_u16_or (pos n) field = if ltb n (2 ^ 16) then ok n else err (out_of_range field)
to_u16_or (negsuc n) field = err (out_of_range field)

unfoldable pub radius_to_terrain_cells : ℤ → SimResult ℕ
unfolding round_divide
radius_to_terrain_cells radius = do
  cells ←
      ok_or (round_divide radius (pos position_scale))
        (overflow (text "ChainDetonate blast radius to terrain cells"))
  to_u16_or cells (text "ChainDetonate.magnitude_secondary (blast radius)")

-- The knives that have gone off leave the field.
unfoldable pub clear_detonated : ResolveContext → List ℕ → ResolveContext
unfolding is_embedded_knife
clear_detonated ctx gone =
    let went = λ (o : PersistentObject). is_embedded_knife o.kind && contains o.sequence gone in
    with_objects ctx (filter (λ o. not (went o)) ctx.state.objects)
      (ctx.object_changes ++ map (removed_by detonated) (filter went ctx.state.objects))

-- The knives that a landing knife triggers.
unfoldable pub triggered_by : ℕ → FixedPoint → Knives → List ℕ
unfolding add_knives within_radius
triggered_by landing position knives =
    add_knives
      (λ knife.
        not (knife.0 == landing) && within_radius position knife.1 (pos knife_chain_trigger_radius))
      knives []

-- The chain from a landing knife: each knife goes off once at most, so that as many rounds are enough.
unfoldable pub detonate_from : ResolveContext → ℤ → ℕ → ℕ → Knives → ℕ × FixedPoint → ResolveContext
unfolding triggered_by detonate_pending insert_number clear_detonated
detonate_from ctx radius damage cells knives (landing, position) =
    let triggered = triggered_by landing position knives in
    let burst =
      detonate_pending (length knives) radius damage cells knives ctx
        (insert_number landing triggered) [] in
    elim triggered [ [] ↦ ctx | n ∷ ns ↦ clear_detonated burst.context burst.gone ]

unfoldable pub chain : ResolveContext → SpecialEffect → SimResult ResolveContext
unfolding scale radius_to_terrain_cells knives_of landing_knife detonate_from
chain ctx effect = do
  damage ←
      ok_or (scale (pos base_attack) effect.magnitude (pos 100))
        (overflow (text "ChainDetonate damage percent to hit points"))
  damage_hp ← to_u16_or damage (text "ChainDetonate.magnitude (damage percent)")
  cells ← radius_to_terrain_cells effect.magnitude_secondary
  let knives = knives_of ctx.state.objects []
  elim (landing_knife ctx.impact_point knives) [
    | none ↦ ok ctx
    | some knife ↦ ok (detonate_from ctx effect.magnitude_secondary damage_hp cells knives knife)
  ]

unfoldable pub resolve_kind : EffectKind → ResolveContext → SpecialEffect → SimResult ResolveContext
unfolding Objects.spawn_turret Objects.embed_projectile chain
resolve_kind spawn_turret ctx effect = Objects.spawn_turret ctx effect
resolve_kind embed_projectile ctx effect = Objects.embed_projectile ctx effect
resolve_kind chain_detonate ctx effect = chain ctx effect
resolve_kind _ ctx effect = ok ctx

unfoldable pub resolve : ResolveContext → SpecialEffect → SimResult ResolveContext
unfolding resolve_kind
resolve ctx effect = resolve_kind effect.kind ctx effect
