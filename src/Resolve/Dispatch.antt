-- ===== src/Resolve/Dispatch.antt =====
-- crates/db-sim-core/src/resolve/mod.rs: each effect goes to the family that resolves it.
pub mod Frame
pub mod Families
pub mod Weapons
pub mod Objects
pub mod Effect
use dungeon_barrage.Base.{List, []}
use dungeon_barrage.Error.{SimResult, ok, err, ◌>>=◌}
use dungeon_barrage.Types.Ability.{
  SpecialEffect, EffectKind, knockback, chill, cluster, embers, tunnel, return, recoil, self_damage,
  teleport, pull, push, wall_impact, lockdown, spawn_turret, heal, health_transfer, multi_strike,
  guarantee_crit, embed_projectile, chain_detonate, relocate, obscure,
}
use dungeon_barrage.Types.Outcome.{StrikeResolution}
use dungeon_barrage.Resolve.{ResolveContext}
use dungeon_barrage.Resolve.Support
use dungeon_barrage.Resolve.Statuses
use dungeon_barrage.Resolve.Displacement.Effects
use dungeon_barrage.Resolve.AttackMods
use dungeon_barrage.Resolve.AttackMods.Hits.{resolve_multi_strike}
use dungeon_barrage.Resolve.Relocation
use dungeon_barrage.Resolve.Detonation

-- The families that report no strikes of their own.
unfoldable pub resolve_silent :
    EffectKind → ResolveContext → SpecialEffect → SimResult ResolveContext
resolve_silent knockback ctx effect = Effects.resolve ctx effect
resolve_silent push ctx effect = Effects.resolve ctx effect
resolve_silent pull ctx effect = Effects.resolve ctx effect
resolve_silent recoil ctx effect = Effects.resolve ctx effect
resolve_silent wall_impact ctx effect = Effects.resolve ctx effect
resolve_silent teleport ctx effect = Relocation.resolve ctx effect
resolve_silent relocate ctx effect = Relocation.resolve ctx effect
resolve_silent obscure ctx effect = Relocation.resolve ctx effect
resolve_silent spawn_turret ctx effect = Detonation.resolve ctx effect
resolve_silent embed_projectile ctx effect = Detonation.resolve ctx effect
resolve_silent chain_detonate ctx effect = Detonation.resolve ctx effect
resolve_silent chill ctx effect = Statuses.resolve ctx effect
resolve_silent lockdown ctx effect = Statuses.resolve ctx effect
resolve_silent embers ctx effect = Statuses.resolve ctx effect
resolve_silent multi_strike ctx effect = AttackMods.resolve ctx effect
resolve_silent guarantee_crit ctx effect = AttackMods.resolve ctx effect
resolve_silent cluster ctx effect = AttackMods.resolve ctx effect
resolve_silent return ctx effect = AttackMods.resolve ctx effect
resolve_silent tunnel ctx effect = AttackMods.resolve ctx effect
resolve_silent heal ctx effect = Support.resolve ctx effect
resolve_silent health_transfer ctx effect = Support.resolve ctx effect
resolve_silent self_damage ctx effect = Support.resolve ctx effect

-- The strikes of a multiple strike are reported, and none for any other kind.
unfoldable pub resolve_by_kind :
    EffectKind → ResolveContext → SpecialEffect → SimResult (ResolveContext × List StrikeResolution)
resolve_by_kind multi_strike ctx effect = resolve_multi_strike ctx effect
resolve_by_kind kind ctx effect = resolve_silent kind ctx effect >>= λ next. ok (next, [])

unfoldable pub resolve_effect :
    ResolveContext → SpecialEffect → SimResult (ResolveContext × List StrikeResolution)
resolve_effect ctx effect = resolve_by_kind effect.kind ctx effect
