-- ===== src/Resolve/AttackMods.antt =====
-- crates/db-sim-core/src/resolve/attack_mods.rs: marks for critical hits, a returning shot, and the
-- dispatch of the family.
pub mod Hits
pub mod Carving
use dungeon_barrage.Base.{
  ◌-◌, ◌^◌, List, [], ◌∷◌, ◌++◌, Option, none, some, pos, pos_part, Text, text,
}
use dungeon_barrage.Error.{SimResult, ok, err, out_of_range, unknown_definition, ◌>>=◌}
use dungeon_barrage.Types.Ability.{
  SpecialEffect, EffectKind, multi_strike, guarantee_crit, cluster, return, tunnel,
}
use dungeon_barrage.Types.Player.{StatusEffect}
use dungeon_barrage.Resolve.{ResolveContext}
use dungeon_barrage.Resolve.Support.{percent_to_hp}
use dungeon_barrage.Resolve.Statuses.{afflict}
use Hits.{resolve_multi_strike}
use Carving.{add_raw, deal_capped, resolve_cluster, resolve_tunnel}

unfoldable pub resolve_guarantee_crit : ResolveContext → SpecialEffect → SimResult ResolveContext
unfolding afflict
resolve_guarantee_crit ctx effect =
    let status : StatusEffect = record {
      kind = guarantee_crit;
      magnitude = pos (pos_part effect.magnitude);
      turns_remaining = 2 ^ 8 - 1;
    } in
    elim ctx.primary_target_id [
      | none ↦ err (out_of_range (text "guarantee_crit.primary_target_id"))
      | some target_id ↦ elim (afflict ctx target_id status) [
        | none ↦ err unknown_definition
        | some after ↦ ok after
      ]
    ]

-- The way out hits the primary target, the way back the secondary one or the same again.
unfoldable pub resolve_return : ResolveContext → SpecialEffect → SimResult ResolveContext
unfolding percent_to_hp add_raw deal_capped
resolve_return ctx effect = elim ctx.primary_target_id [
  | none ↦ err (out_of_range (text "return.primary_target_id"))
  | some primary_id ↦
      let return_id : Text = elim ctx.secondary_target_id [ none ↦ primary_id | some id ↦ id ] in
      let hp = percent_to_hp effect.magnitude in
      let raw = add_raw return_id hp (add_raw primary_id hp []) in
      ok (deal_capped ctx (percent_to_hp effect.magnitude_secondary) raw)
]

unfoldable pub resolve_kind : EffectKind → ResolveContext → SpecialEffect → SimResult ResolveContext
unfolding resolve_multi_strike resolve_guarantee_crit resolve_cluster resolve_return resolve_tunnel
resolve_kind multi_strike ctx effect = do struck ← resolve_multi_strike ctx effect; ok struck.0
resolve_kind guarantee_crit ctx effect = resolve_guarantee_crit ctx effect
resolve_kind cluster ctx effect = resolve_cluster ctx effect
resolve_kind return ctx effect = resolve_return ctx effect
resolve_kind tunnel ctx effect = resolve_tunnel ctx effect
resolve_kind _ ctx effect =
    err (out_of_range (text "effect.kind (not an attack_mods-family effect)"))

unfoldable pub resolve : ResolveContext → SpecialEffect → SimResult ResolveContext
unfolding resolve_kind
resolve ctx effect = resolve_kind effect.kind ctx effect
