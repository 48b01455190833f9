-- ===== src/Resolve/Relocation.antt =====
-- crates/db-sim-core/src/resolve/relocation.rs: teleports to a drawn point, thrown players and clouds.
pub mod Place
use dungeon_barrage.Base.{
  ℕ, zero, suc, ◌+◌, ◌*◌, ◌-◌, ◌^◌, Bool, true, false, not, ◌&&◌, List, [], ◌∷◌, ◌++◌, any, Option,
  none, some, if◌then◌else◌, ltb, min, ℤ, pos, pos_part, ◌+ℤ◌, ◌-ℤ◌, ◌*ℤ◌, leb_ℤ, checked_i32,
  sat_i64, Text, text,
}
use dungeon_barrage.Fixed.{FixedPoint, scale}
use dungeon_barrage.Rng.{Rng, bounded_value}
use dungeon_barrage.Error.{SimResult, ok, err, out_of_range, overflow, ok_or, ◌>>=◌}
use dungeon_barrage.Types.Ability.{
  SpecialEffect, EffectKind, teleport, relocate, obscure, lockdown, base_attack,
}
use dungeon_barrage.Types.Player.{PlayerState, is_eliminated, PersistentObject, gas_cloud}
use dungeon_barrage.Types.Terrain.{TerrainMask}
use dungeon_barrage.Types.State.{player, update_player}
use dungeon_barrage.Types.Outcome.{aleph_veilstep_teleport_point}
use dungeon_barrage.Movement.{is_locked_down}
use dungeon_barrage.Resolve.{ResolveContext, damage_entry, next_object_sequence, add_u16}
use dungeon_barrage.Resolve.TerrainDamage.{cap_u16}
use dungeon_barrage.Resolve.Objects.{with_objects, spawned_change}
use Place.{nearest_legal_position}

pub record PointDraw : Type 0 where
  pub axis_bound : ℕ
  pub x_result : ℕ
  pub y_result : ℕ
  pub fallback_used : Bool
  pub drawn_point : FixedPoint

unfoldable pub is_drawn_near : ℤ → ℤ → ℤ → Bool
unfolding sat_i64 ◌*ℤ◌ ◌+ℤ◌
is_drawn_near radius dx dy =
    leb_ℤ (sat_i64 (sat_i64 (dx *ℤ dx) +ℤ sat_i64 (dy *ℤ dy))) (sat_i64 (radius *ℤ radius))

-- The offset of a drawn coordinate.
unfoldable pub draw_offset : ℕ → ℤ → Text → Text → SimResult ℤ
unfolding checked_i32 ◌-ℤ◌
draw_offset drawn radius too_large too_far = do
  raw ← ok_or (checked_i32 (pos drawn)) (overflow too_large)
  ok_or (checked_i32 (raw -ℤ radius)) (overflow too_far)

unfoldable pub drawn_at : FixedPoint → ℤ → ℤ → ℕ → ℕ → ℕ → SimResult PointDraw
unfolding checked_i32 ◌+ℤ◌
drawn_at center dx dy span x_result y_result = do
  x ← ok_or (checked_i32 (center.x +ℤ dx)) (overflow (text "relocation::teleport_draw_center_x"))
  y ← ok_or (checked_i32 (center.y +ℤ dy)) (overflow (text "relocation::teleport_draw_center_y"))
  ok (record {
    axis_bound = span;
    x_result = x_result;
    y_result = y_result;
    fallback_used = false;
    drawn_point = record { x = x; y = y };
  })

-- So many attempts at a point of the disc, after the results of the last one.
unfoldable pub draw_attempts : ℕ → Rng → FixedPoint → ℤ → ℕ → ℕ → ℕ → SimResult (PointDraw × Rng)
unfolding is_drawn_near draw_offset drawn_at
draw_attempts zero r center radius span last_x last_y = ok (
  record {
    axis_bound = span;
    x_result = last_x;
    y_result = last_y;
    fallback_used = true;
    drawn_point = center;
  },
  r,
)
draw_attempts (suc n) r center radius span last_x last_y =
    let (x_result, r1) = bounded_value r span in
    let (y_result, r2) = bounded_value r1 span in
    let again = draw_attempts n r2 center radius span x_result y_result in
    do
      dx ←
          draw_offset x_result radius (text "relocation::teleport_draw_x")
            (text "relocation::teleport_draw_dx")
      dy ←
          draw_offset y_result radius (text "relocation::teleport_draw_y")
            (text "relocation::teleport_draw_dy")
      elim (is_drawn_near radius dx dy) [
        | true ↦ drawn_at center dx dy span x_result y_result >>= λ drawn. ok (drawn, r2)
        | false ↦ again
      ]

unfoldable pub draw_point_in_radius : Rng → FixedPoint → ℤ → SimResult (PointDraw × Rng)
unfolding checked_i32 ◌+ℤ◌ ◌*ℤ◌ draw_attempts
draw_point_in_radius r center radius = do
  doubled ← ok_or (checked_i32 (radius *ℤ pos 2)) (overflow (text "relocation::teleport_draw_span"))
  span ← ok_or (checked_i32 (doubled +ℤ pos 1)) (overflow (text "relocation::teleport_draw_span"))
  draw_attempts 64 r center radius (pos_part span) 0 0

abbrev pub move_to : ResolveContext → Text → FixedPoint → ResolveContext
move_to ctx id position = record ctx {
  state = update_player ctx.state id (λ p. record p { position = position });
}

unfoldable pub teleport_from : ResolveContext → FixedPoint → ℤ → SimResult ResolveContext
unfolding draw_point_in_radius nearest_legal_position update_player
teleport_from ctx center radius = do
  drawn ← draw_point_in_radius ctx.rng center radius
  let draw = drawn.0
  destination ← nearest_legal_position ctx.state.terrain draw.drawn_point
  let outcome =
      aleph_veilstep_teleport_point draw.axis_bound draw.x_result draw.y_result draw.fallback_used
        draw.drawn_point destination
  ok (
      move_to (record ctx { rng = drawn.1; random_outcomes = ctx.random_outcomes ++ outcome ∷ [] })
        ctx.actor_id destination)

unfoldable pub resolve_teleport : ResolveContext → SpecialEffect → SimResult ResolveContext
unfolding player teleport_from
resolve_teleport ctx effect =
    if leb_ℤ effect.magnitude (pos 0)
    then err (out_of_range (text "relocation::teleport_radius"))
    else elim (player ctx.state ctx.actor_id) [
      | none ↦ err (out_of_range (text "relocation::teleport_actor"))
      | some p ↦ teleport_from ctx p.position effect.magnitude
    ]

unfoldable pub apply_direct_damage : ResolveContext → Text → ℤ → SimResult ResolveContext
unfolding scale player update_player damage_entry is_eliminated
apply_direct_damage ctx player_id percent = do
  raw_damage ←
      ok_or (scale (pos base_attack) percent (pos 100))
        (overflow (text "relocation::direct_damage_scale"))
  p ← ok_or (player ctx.state player_id) (out_of_range (text "relocation::direct_damage_target"))
  let actual = min (cap_u16 raw_damage) p.health
  let eliminated_now = is_eliminated (record p { health = p.health - actual })
  let hurt : ResolveContext = record ctx {
    state = update_player ctx.state player_id (λ q. record q { health = q.health - actual });
  }
  ok (
      damage_entry hurt player_id
        (λ e. record e { direct = add_u16 e.direct actual; eliminated = eliminated_now }))

abbrev pub thrown_damage_percent : ℕ
thrown_damage_percent = 40

-- A thrown player lands where the other stands, unless locked down.
unfoldable pub throw_onto : ResolveContext → Text → FixedPoint → SimResult ResolveContext
unfolding is_locked_down player update_player
throw_onto ctx thrown_id destination =
    if is_locked_down ctx.state thrown_id then ok ctx else elim (player ctx.state thrown_id) [
      | none ↦ err (out_of_range (text "relocation::relocate_thrown_target"))
      | some _ ↦ ok (move_to ctx thrown_id destination)
    ]

unfoldable pub resolve_relocate : ResolveContext → SpecialEffect → SimResult ResolveContext
unfolding player throw_onto apply_direct_damage
resolve_relocate ctx effect = do
  thrown_id ← ok_or ctx.primary_target_id (out_of_range (text "relocation::relocate_thrown_target"))
  destination_id ←
      ok_or ctx.secondary_target_id (out_of_range (text "relocation::relocate_destination_target"))
  p ←
      ok_or (player ctx.state destination_id)
        (out_of_range (text "relocation::relocate_destination_target"))
  thrown ← throw_onto ctx thrown_id p.position
  hurt ← apply_direct_damage thrown thrown_id (pos thrown_damage_percent)
  apply_direct_damage hurt destination_id effect.magnitude

unfoldable pub resolve_obscure : ResolveContext → SpecialEffect → SimResult ResolveContext
unfolding player next_object_sequence
resolve_obscure ctx effect = do
  p ← ok_or (player ctx.state ctx.actor_id) (out_of_range (text "relocation::obscure_actor"))
  let advanced = (next_object_sequence ctx).1
  let cloud : PersistentObject = record {
    sequence = (next_object_sequence ctx).0;
    owner_id = ctx.actor_id;
    kind = gas_cloud;
    position = p.position;
    health = 2 ^ 16 - 1;
    turns_remaining = effect.duration_turns;
  }
  ok (
      with_objects advanced (advanced.state.objects ++ cloud ∷ [])
        (advanced.object_changes ++ spawned_change cloud ∷ []))

unfoldable pub resolve_kind : EffectKind → ResolveContext → SpecialEffect → SimResult ResolveContext
unfolding resolve_teleport resolve_relocate resolve_obscure
resolve_kind teleport ctx effect = resolve_teleport ctx effect
resolve_kind relocate ctx effect = resolve_relocate ctx effect
resolve_kind obscure ctx effect = resolve_obscure ctx effect
resolve_kind _ ctx effect = err (out_of_range (text "relocation::unsupported_effect_kind"))

unfoldable pub resolve : ResolveContext → SpecialEffect → SimResult ResolveContext
unfolding resolve_kind
resolve ctx effect = resolve_kind effect.kind ctx effect
