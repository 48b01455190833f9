-- ===== src/Resolve/Dispatch/Objects.antt =====
-- The relocations and objects of crates/db-sim-core/src/resolve/ keep the frame of the match.
use dungeon_barrage.Base.{
  ℕ, zero, suc, ◌∙◌, refl, List, [], ◌∷◌, ◌++◌, arith, ◌==◌, ℤ, pos, leb_ℤ, Text, length, inl, inr,
  Bool-cases, Option-cases,
}
use dungeon_barrage.Fixed.{FixedPoint, scale}
use dungeon_barrage.Types.Ability
use dungeon_barrage.Types.Ability.{base_attack, SpecialEffect, EffectKind}
use dungeon_barrage.Types.Terrain.{subtract_circle}
use dungeon_barrage.Types.State.{player}
use dungeon_barrage.Movement.{is_locked_down}
use dungeon_barrage.Resolve.{ResolveContext, damage_entry, next_object_sequence}
use dungeon_barrage.Resolve.Objects.{
  embed_projectile, evict, to_usize, new_knife, with_objects, spawned_change,
}
use dungeon_barrage.Resolve.Relocation
use dungeon_barrage.Resolve.Relocation.{
  draw_point_in_radius, thrown_damage_percent, apply_direct_damage, throw_onto, teleport_from,
  resolve_teleport, resolve_relocate, resolve_obscure,
}
use dungeon_barrage.Resolve.Relocation.Place.{nearest_legal_position}
use dungeon_barrage.Resolve.Detonation
use dungeon_barrage.Resolve.Detonation.{
  Knives, Burst, to_u16_or, radius_to_terrain_cells, contains, position_of, insert_number,
  triggered_by, apply_detonation_damage, detonate_on, blast, caught_ids, detonate_first,
  detonate_pending, detonate_from, clear_detonated, chain, landing_knife, knives_of,
}
use dungeon_barrage.Resolve.Dispatch.Frame.{
  frame, SameFrame, KeepsFrame, frame-carve, opt_step, if_step, then_step, some_step, ok_or_step,
}

-- The relocations.
apply_direct_damage-KeepsFrame :
    (ctx : ResolveContext) (id : Text) (percent : ℤ)
    → KeepsFrame ctx (apply_direct_damage ctx id percent)
unfolding frame apply_direct_damage damage_entry
apply_direct_damage-KeepsFrame ctx id percent = ground arith

throw_onto-KeepsFrame :
    (ctx : ResolveContext) (id : Text) (p : FixedPoint) → KeepsFrame ctx (throw_onto ctx id p)
unfolding frame throw_onto
throw_onto-KeepsFrame ctx id p =
    if_step ctx (is_locked_down ctx.state id) _ _ refl
      (opt_step ctx (player ctx.state id) _ _ tt (λ _. refl))

teleport_from-KeepsFrame :
    (ctx : ResolveContext) (center : FixedPoint) (radius : ℤ)
    → KeepsFrame ctx (teleport_from ctx center radius)
unfolding frame teleport_from
teleport_from-KeepsFrame ctx center radius =
    ok_or_step ctx (draw_point_in_radius ctx.rng center radius) _ λ drawn.
      ok_or_step ctx (nearest_legal_position ctx.state.terrain drawn.0.drawn_point) _
        λ destination. refl

teleport-KeepsFrame :
    (ctx : ResolveContext) (effect : SpecialEffect) → KeepsFrame ctx (resolve_teleport ctx effect)
unfolding resolve_teleport
teleport-KeepsFrame ctx effect = if_step ctx (leb_ℤ effect.magnitude (pos 0)) _ _ tt (
    opt_step ctx (player ctx.state ctx.actor_id) _ _ tt
      λ p. teleport_from-KeepsFrame ctx p.position effect.magnitude)

relocate-KeepsFrame :
    (ctx : ResolveContext) (effect : SpecialEffect) → KeepsFrame ctx (resolve_relocate ctx effect)
unfolding resolve_relocate
relocate-KeepsFrame ctx effect = some_step ctx ctx.primary_target_id _ _ λ thrown_id.
    some_step ctx ctx.secondary_target_id _ _ λ id. some_step ctx (player ctx.state id) _ _ λ p.
      then_step ctx _ _ (throw_onto-KeepsFrame ctx thrown_id p.position) λ thrown.
        then_step thrown _ _
          (apply_direct_damage-KeepsFrame thrown thrown_id (pos thrown_damage_percent))
          λ hurt. apply_direct_damage-KeepsFrame hurt id effect.magnitude

obscure-KeepsFrame :
    (ctx : ResolveContext) (effect : SpecialEffect) → KeepsFrame ctx (resolve_obscure ctx effect)
unfolding frame resolve_obscure
obscure-KeepsFrame ctx effect = some_step ctx (player ctx.state ctx.actor_id) _ _ λ p. refl

pub relocation-KeepsFrame :
    (kind : EffectKind) (ctx : ResolveContext) (effect : SpecialEffect)
    → KeepsFrame ctx (Relocation.resolve_kind kind ctx effect)
unfolding Relocation.resolve_kind
relocation-KeepsFrame Ability.teleport ctx effect = teleport-KeepsFrame ctx effect
relocation-KeepsFrame Ability.relocate ctx effect = relocate-KeepsFrame ctx effect
relocation-KeepsFrame Ability.obscure ctx effect = obscure-KeepsFrame ctx effect
relocation-KeepsFrame _ ctx effect = tt

-- The objects.
apply_detonation_damage-SameFrame :
    (ctx : ResolveContext) (id : Text) (n : ℕ) → SameFrame ctx (apply_detonation_damage ctx id n)
unfolding frame apply_detonation_damage damage_entry
apply_detonation_damage-SameFrame ctx id n = ground arith

detonate_on-SameFrame :
    (ctx : ResolveContext) (ids : List Text) (n : ℕ) → SameFrame ctx (detonate_on ctx ids n)
unfolding detonate_on
detonate_on-SameFrame ctx [] n = refl
detonate_on-SameFrame ctx (id ∷ ids) n =
    detonate_on-SameFrame (apply_detonation_damage ctx id n) ids n
    ∙ apply_detonation_damage-SameFrame ctx id n

blast-SameFrame :
    (ctx : ResolveContext) (position : FixedPoint) (radius : ℤ) (damage cells : ℕ)
    → SameFrame ctx (blast ctx position radius damage cells)
unfolding blast
blast-SameFrame ctx position radius damage cells =
    frame-carve (detonate_on ctx (caught_ids ctx position radius) damage)
      (subtract_circle position cells)
    ∙ detonate_on-SameFrame ctx (caught_ids ctx position radius) damage

detonate_first-SameFrame :
    (radius : ℤ) (damage cells : ℕ) (knives : Knives) (ctx : ResolveContext) (n : ℕ)
    (pending gone : List ℕ)
    → SameFrame ctx (detonate_first radius damage cells knives ctx n pending gone).context
unfolding detonate_first
detonate_first-SameFrame radius damage cells knives ctx n pending gone =
    elim (Bool-cases (contains n gone)) [
      | inl again ↦ rw (again) refl
      | inr fresh ↦ elim (Option-cases (position_of n knives)) [
        | inl e ↦ rw (fresh, e) refl
        | inr (position, e) ↦ rw (fresh, e) (blast-SameFrame ctx position radius damage cells)
      ]
    ]

detonate_pending-SameFrame :
    (fuel : ℕ) (radius : ℤ) (damage cells : ℕ) (knives : Knives) (ctx : ResolveContext)
    (pending gone : List ℕ)
    → SameFrame ctx (detonate_pending fuel radius damage cells knives ctx pending gone).context
unfolding detonate_pending
detonate_pending-SameFrame zero radius damage cells knives ctx [] gone = refl
detonate_pending-SameFrame (suc fuel) radius damage cells knives ctx [] gone = refl
detonate_pending-SameFrame zero radius damage cells knives ctx (n ∷ pending) gone = refl
detonate_pending-SameFrame (suc fuel) radius damage cells knives ctx (n ∷ pending) gone =
    let next = detonate_first radius damage cells knives ctx n pending gone in
    detonate_pending-SameFrame fuel radius damage cells knives next.context next.pending next.gone
    ∙ detonate_first-SameFrame radius damage cells knives ctx n pending gone

clear_detonated-SameFrame :
    (ctx : ResolveContext) (gone : List ℕ) → SameFrame ctx (clear_detonated ctx gone)
unfolding frame clear_detonated
clear_detonated-SameFrame ctx gone = refl

detonate_from-SameFrame :
    (ctx : ResolveContext) (radius : ℤ) (damage cells : ℕ) (knives : Knives)
    (knife : ℕ × FixedPoint)
    → SameFrame ctx (detonate_from ctx radius damage cells knives knife)
unfolding detonate_from
detonate_from-SameFrame ctx radius damage cells knives (landing, position) = go triggered
  where
    triggered : List ℕ
    triggered = triggered_by landing position knives

    burst : Burst
    burst =
        detonate_pending (length knives) radius damage cells knives ctx
          (insert_number landing triggered) []

    go :
        (ns : List ℕ)
        → SameFrame ctx (elim ns [ [] ↦ ctx | n ∷ ns ↦ clear_detonated burst.context burst.gone ])
    go [] = refl
    go (n ∷ ns) =
        clear_detonated-SameFrame burst.context burst.gone
        ∙ detonate_pending-SameFrame (length knives) radius damage cells knives ctx
            (insert_number landing triggered) []

chain-KeepsFrame :
    (ctx : ResolveContext) (effect : SpecialEffect) → KeepsFrame ctx (chain ctx effect)
unfolding chain
chain-KeepsFrame ctx effect =
    some_step ctx (scale (pos base_attack) effect.magnitude (pos 100)) _ _ λ damage.
      ok_or_step ctx (to_u16_or damage _) _ λ damage_hp.
        ok_or_step ctx (radius_to_terrain_cells effect.magnitude_secondary) _ λ cells.
          opt_step ctx (landing_knife ctx.impact_point (knives_of ctx.state.objects [])) _ _ refl
            λ knife.
              detonate_from-SameFrame ctx effect.magnitude_secondary damage_hp cells
                (knives_of ctx.state.objects []) knife

evict-SameFrame : (ctx : ResolveContext) (cap : ℕ) → SameFrame ctx (evict ctx cap)
unfolding frame evict
evict-SameFrame ctx cap = ground arith

embed_projectile-KeepsFrame :
    (ctx : ResolveContext) (effect : SpecialEffect) → KeepsFrame ctx (embed_projectile ctx effect)
unfolding frame embed_projectile
embed_projectile-KeepsFrame ctx effect =
    let knife = new_knife ctx effect in
    let embedded =
      with_objects (next_object_sequence ctx).1 (ctx.state.objects ++ knife ∷ [])
        (ctx.object_changes ++ spawned_change knife ∷ []) in
    opt_step ctx (to_usize effect.magnitude_secondary) _ _ tt
      λ cap. if_step ctx (cap == 0) _ _ tt (evict-SameFrame embedded cap)

pub objects-KeepsFrame :
    (kind : EffectKind) (ctx : ResolveContext) (effect : SpecialEffect)
    → KeepsFrame ctx (Detonation.resolve_kind kind ctx effect)
unfolding frame Detonation.resolve_kind
objects-KeepsFrame Ability.spawn_turret ctx effect = refl
objects-KeepsFrame Ability.embed_projectile ctx effect = embed_projectile-KeepsFrame ctx effect
objects-KeepsFrame Ability.chain_detonate ctx effect = chain-KeepsFrame ctx effect
objects-KeepsFrame _ ctx effect = refl
