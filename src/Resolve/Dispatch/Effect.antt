-- ===== src/Resolve/Dispatch/Effect.antt =====
-- The dispatch of crates/db-sim-core/src/resolve/mod.rs keeps the frame of the match.
use dungeon_barrage.Base.{[]}
use dungeon_barrage.Error.{SimResult, ok, err, ◌>>=◌}
use dungeon_barrage.Types.Ability.{
  SpecialEffect, EffectKind, knockback, chill, cluster, embers, tunnel, return, recoil, self_damage,
  teleport, pull, push, wall_impact, lockdown, spawn_turret, heal, health_transfer, multi_strike,
  guarantee_crit, embed_projectile, chain_detonate, relocate, obscure,
}
use dungeon_barrage.Resolve.{ResolveContext}
use dungeon_barrage.Resolve.Support
use dungeon_barrage.Resolve.Statuses
use dungeon_barrage.Resolve.Displacement.Effects
use dungeon_barrage.Resolve.AttackMods
use dungeon_barrage.Resolve.Relocation
use dungeon_barrage.Resolve.Detonation
use dungeon_barrage.Resolve.Dispatch.{resolve_silent, resolve_by_kind, resolve_effect}
use dungeon_barrage.Resolve.Dispatch.Frame.{KeepsFrame}
use dungeon_barrage.Resolve.Dispatch.Families.{
  support-KeepsFrame, statuses-KeepsFrame, displacement-KeepsFrame,
}
use dungeon_barrage.Resolve.Dispatch.Weapons.{
  StrikesKeepFrame, multi_strike-KeepsFrame, attack_mods-KeepsFrame,
}
use dungeon_barrage.Resolve.Dispatch.Objects.{relocation-KeepsFrame, objects-KeepsFrame}

module _ (ctx : ResolveContext) (effect : SpecialEffect) where
  displaced : KeepsFrame ctx (Effects.resolve ctx effect)
  unfolding Effects.resolve
  displaced = displacement-KeepsFrame effect.kind ctx effect

  relocated : KeepsFrame ctx (Relocation.resolve ctx effect)
  unfolding Relocation.resolve
  relocated = relocation-KeepsFrame effect.kind ctx effect

  placed : KeepsFrame ctx (Detonation.resolve ctx effect)
  unfolding Detonation.resolve
  placed = objects-KeepsFrame effect.kind ctx effect

  afflicted : KeepsFrame ctx (Statuses.resolve ctx effect)
  unfolding Statuses.resolve
  afflicted = statuses-KeepsFrame effect.kind ctx effect

  modified : KeepsFrame ctx (AttackMods.resolve ctx effect)
  unfolding AttackMods.resolve
  modified = attack_mods-KeepsFrame effect.kind ctx effect

  supported : KeepsFrame ctx (Support.resolve ctx effect)
  unfolding Support.resolve
  supported = support-KeepsFrame effect.kind ctx effect

resolve_silent-KeepsFrame :
    (kind : EffectKind) (ctx : ResolveContext) (effect : SpecialEffect)
    → KeepsFrame ctx (resolve_silent kind ctx effect)
unfolding resolve_silent
resolve_silent-KeepsFrame knockback ctx effect = displaced ctx effect
resolve_silent-KeepsFrame push ctx effect = displaced ctx effect
resolve_silent-KeepsFrame pull ctx effect = displaced ctx effect
resolve_silent-KeepsFrame recoil ctx effect = displaced ctx effect
resolve_silent-KeepsFrame wall_impact ctx effect = displaced ctx effect
resolve_silent-KeepsFrame teleport ctx effect = relocated ctx effect
resolve_silent-KeepsFrame relocate ctx effect = relocated ctx effect
resolve_silent-KeepsFrame obscure ctx effect = relocated ctx effect
resolve_silent-KeepsFrame spawn_turret ctx effect = placed ctx effect
resolve_silent-KeepsFrame embed_projectile ctx effect = placed ctx effect
resolve_silent-KeepsFrame chain_detonate ctx effect = placed ctx effect
resolve_silent-KeepsFrame chill ctx effect = afflicted ctx effect
resolve_silent-KeepsFrame lockdown ctx effect = afflicted ctx effect
resolve_silent-KeepsFrame embers ctx effect = afflicted ctx effect
resolve_silent-KeepsFrame multi_strike ctx effect = modified ctx effect
resolve_silent-KeepsFrame guarantee_crit ctx effect = modified ctx effect
resolve_silent-KeepsFrame cluster ctx effect = modified ctx effect
resolve_silent-KeepsFrame return ctx effect = modified ctx effect
resolve_silent-KeepsFrame tunnel ctx effect = modified ctx effect
resolve_silent-KeepsFrame heal ctx effect = supported ctx effect
resolve_silent-KeepsFrame health_transfer ctx effect = supported ctx effect
resolve_silent-KeepsFrame self_damage ctx effect = supported ctx effect

silent-StrikesKeepFrame :
    (ctx : ResolveContext) (r : SimResult ResolveContext)
    → KeepsFrame ctx r
    → StrikesKeepFrame ctx (r >>= λ next. ok (next, []))
silent-StrikesKeepFrame ctx (ok next) h = h
silent-StrikesKeepFrame ctx (err e) h = tt

resolve_by_kind-StrikesKeepFrame :
    (kind : EffectKind) (ctx : ResolveContext) (effect : SpecialEffect)
    → StrikesKeepFrame ctx (resolve_by_kind kind ctx effect)
unfolding resolve_by_kind
resolve_by_kind-StrikesKeepFrame multi_strike ctx effect = multi_strike-KeepsFrame ctx effect
resolve_by_kind-StrikesKeepFrame kind ctx effect =
    silent-StrikesKeepFrame ctx (resolve_silent kind ctx effect)
      (resolve_silent-KeepsFrame kind ctx effect)

-- An effect of whatever kind fails, or leaves the turn, the phase, the active player, the allowance, the
-- attack of the turn, the ledger of commands and the generator of the match as they were.
pub resolve_effect-KeepsFrame :
    (ctx : ResolveContext) (effect : SpecialEffect)
    → StrikesKeepFrame ctx (resolve_effect ctx effect)
unfolding resolve_effect
resolve_effect-KeepsFrame ctx effect = resolve_by_kind-StrikesKeepFrame effect.kind ctx effect
