-- ===== src/Resolve/Support.antt =====
-- crates/db-sim-core/src/resolve/support.rs: healing, the transfer of health, and backlash.

pub mod Health
pub mod Bounds
use dungeon_barrage.Base.{
  ℕ, ◌-◌, Option, none, some, if◌then◌else◌, ◌==◌, ltb, min, ◌||◌, ℤ, pos, Text, text,
}
use dungeon_barrage.Fixed.{scale}
use dungeon_barrage.Error.{SimResult, ok, err, out_of_range}
use dungeon_barrage.Types.Ability.{
  SpecialEffect, EffectKind, heal, health_transfer, self_damage, base_attack,
}
use dungeon_barrage.Types.Player.{PlayerState, is_eliminated}
use dungeon_barrage.Types.State.{player, update_player}
use dungeon_barrage.Resolve.{ResolveContext, damage_entry, to_u16, add_u16}

unfoldable pub percent_to_hp : ℤ → ℕ
unfolding scale
percent_to_hp percent = elim (scale (pos base_attack) percent (pos 100)) [
  | none ↦ 0
  | some value ↦ to_u16 value
]

-- A write of the health of a player.
abbrev pub with_health : ResolveContext → Text → (PlayerState → ℕ) → ResolveContext
with_health ctx id f = record ctx {
  state = update_player ctx.state id (λ p. record p { health = f p });
}

unfoldable pub apply_heal : ResolveContext → Text → ℕ → ResolveContext
unfolding player update_player damage_entry
apply_heal ctx player_id amount = if amount == 0 then ctx else elim (player ctx.state player_id) [
  | none ↦ ctx
  | some p ↦
      let missing = p.max_health - p.health in
      let actual = min amount missing in
      let healed = with_health ctx player_id (λ q. add_u16 q.health actual) in
      damage_entry healed player_id (λ e. record e { healed = add_u16 e.healed actual })
]

unfoldable pub apply_backlash : ResolveContext → Text → ℕ → ResolveContext
unfolding player update_player damage_entry is_eliminated
apply_backlash ctx player_id amount =
    if amount == 0 then ctx else elim (player ctx.state player_id) [
      | none ↦ ctx
      | some p ↦
          let actual = min amount p.health in
          let eliminated_now = is_eliminated (record p { health = p.health - amount }) in
          let hurt = with_health ctx player_id (λ q. q.health - amount) in
          damage_entry hurt player_id (λ e. record e {
            backlash = add_u16 e.backlash actual;
            eliminated = e.eliminated || eliminated_now;
          })
    ]

unfoldable pub resolve_heal : ResolveContext → SpecialEffect → SimResult ResolveContext
unfolding apply_heal
resolve_heal ctx effect =
    let target_id : Text = elim ctx.primary_target_id [ none ↦ ctx.actor_id | some id ↦ id ] in
    ok (apply_heal ctx target_id (to_u16 effect.magnitude))

-- What the actor can spare, and what the target can take.
unfoldable pub sparable : ResolveContext → ℕ
unfolding player
sparable ctx = elim (player ctx.state ctx.actor_id) [ none ↦ 0 | some actor ↦ actor.health - 1 ]

unfoldable pub receivable : ResolveContext → Text → ℕ
unfolding player
receivable ctx target_id = elim (player ctx.state target_id) [
  | none ↦ 0
  | some target ↦ target.max_health - target.health
]

-- The transfer to a target.
unfoldable pub transfer : ResolveContext → Text → ℕ → ResolveContext
unfolding sparable receivable apply_heal update_player
transfer ctx target_id magnitude =
    let transferred = min (min magnitude (sparable ctx)) (receivable ctx target_id) in
    let debited = with_health ctx ctx.actor_id (λ actor. actor.health - transferred) in
    if ltb 0 transferred then apply_heal debited target_id transferred else ctx

unfoldable pub resolve_health_transfer : ResolveContext → SpecialEffect → SimResult ResolveContext
unfolding apply_heal transfer
resolve_health_transfer ctx effect =
    let magnitude = to_u16 effect.magnitude in
    elim ctx.primary_target_id [
      | none ↦ ok (apply_heal ctx ctx.actor_id magnitude)
      | some target_id ↦ ok (transfer ctx target_id magnitude)
    ]

unfoldable pub resolve_self_damage : ResolveContext → SpecialEffect → SimResult ResolveContext
unfolding percent_to_hp apply_backlash
resolve_self_damage ctx effect =
    ok (apply_backlash ctx ctx.actor_id (percent_to_hp effect.magnitude))

unfoldable pub resolve_kind : EffectKind → ResolveContext → SpecialEffect → SimResult ResolveContext
unfolding resolve_heal resolve_health_transfer resolve_self_damage
resolve_kind heal ctx effect = resolve_heal ctx effect
resolve_kind health_transfer ctx effect = resolve_health_transfer ctx effect
resolve_kind self_damage ctx effect = resolve_self_damage ctx effect
resolve_kind _ ctx effect = err (out_of_range (text "effect.kind (not a support-family effect)"))

unfoldable pub resolve : ResolveContext → SpecialEffect → SimResult ResolveContext
unfolding resolve_kind
resolve ctx effect = resolve_kind effect.kind ctx effect
