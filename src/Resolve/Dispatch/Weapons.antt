-- ===== src/Resolve/Dispatch/Weapons.antt =====
-- The attack modifiers of crates/db-sim-core/src/resolve/attack_mods.rs keep the frame of the match.
use dungeon_barrage.Base.{
  ℕ, zero, suc, ◌+◌, ◌*◌, ◌∙◌, refl, false, List, [], ◌∷◌, Option, none, some, arith, min, max, pos,
  pos_part, Text, text,
}
use dungeon_barrage.Fixed.{FixedPoint, to_cells, from_cells}
use dungeon_barrage.Error.{SimResult, ok, err, out_of_range, ◌>>=◌}
use dungeon_barrage.Types.Ability
use dungeon_barrage.Types.Ability.{base_attack, SpecialEffect, EffectKind}
use dungeon_barrage.Types.Terrain.{subtract_circle, subtract_capsule}
use dungeon_barrage.Types.Outcome.{StrikeResolution}
use dungeon_barrage.Resolve.{ResolveContext, living_opponent_ids}
use dungeon_barrage.Resolve.Support.{percent_to_hp}
use dungeon_barrage.Resolve.AttackMods
use dungeon_barrage.Resolve.AttackMods.{resolve_guarantee_crit, resolve_return}
use dungeon_barrage.Resolve.AttackMods.Hits.{
  deal_damage, strike_crit, strike_once, strike_times, damage_percents, resolve_multi_strike,
}
use dungeon_barrage.Resolve.AttackMods.Carving.{
  carve, deal_capped, drop_submunition, drop_submunitions, nearest_living_target,
  cluster_submunition_landing, add_raw, bore_stop, resolve_cluster, resolve_tunnel,
}
use dungeon_barrage.Resolve.Dispatch.Frame.{
  frame, SameFrame, KeepsFrame, frame-carve, frame-deal_damage, opt_step,
}

pub strike_crit-SameFrame :
    (ctx : ResolveContext) (id : Text) (n : ℕ) → SameFrame ctx (strike_crit ctx id n).1
unfolding frame strike_crit
strike_crit-SameFrame ctx id n = ground arith

strike_once-SameFrame :
    (ctx : ResolveContext) (id : Text) (plain_hp crit_hp chance index : ℕ)
    → SameFrame ctx (strike_once ctx id plain_hp crit_hp chance index).0
unfolding strike_once
strike_once-SameFrame ctx id plain_hp crit_hp chance index =
    frame-deal_damage (strike_crit ctx id chance).1 id _ _ ∙ strike_crit-SameFrame ctx id chance

strike_times-SameFrame :
    (n : ℕ) (ctx : ResolveContext) (id : Text) (plain_hp crit_hp chance index : ℕ)
    → SameFrame ctx (strike_times n ctx id plain_hp crit_hp chance index).0
unfolding strike_times
strike_times-SameFrame zero ctx id plain_hp crit_hp chance index = refl
strike_times-SameFrame (suc n) ctx id plain_hp crit_hp chance index =
    strike_times-SameFrame n (strike_once ctx id plain_hp crit_hp chance index).0 id plain_hp
      crit_hp chance (index + 1)
    ∙ strike_once-SameFrame ctx id plain_hp crit_hp chance index

abbrev pub StrikesKeepFrame :
    ResolveContext → SimResult (ResolveContext × List StrikeResolution) → Type 0
StrikesKeepFrame ctx (ok next) = SameFrame ctx next.0
StrikesKeepFrame ctx (err e) = Unit

pub multi_strike-KeepsFrame :
    (ctx : ResolveContext) (effect : SpecialEffect)
    → StrikesKeepFrame ctx (resolve_multi_strike ctx effect)
unfolding resolve_multi_strike
multi_strike-KeepsFrame ctx effect = go ctx.primary_target_id
  where
    go :
        (o : Option Text)
        → StrikesKeepFrame ctx (elim o [
          | none ↦ err (out_of_range (text "multi_strike.primary_target_id"))
          | some id ↦
              let (plain, critical) = damage_percents effect in
              ok (
                strike_times
                  (max (pos_part effect.magnitude) 1)
                  ctx
                  id
                  (percent_to_hp (pos plain))
                  (percent_to_hp (pos critical))
                  (effect.duration_turns * 100)
                  0)
        ])
    go none = tt
    go (some id) = strike_times-SameFrame (max (pos_part effect.magnitude) 1) ctx id _ _ _ 0

deal_capped-SameFrame :
    (ctx : ResolveContext) (cap_hp : ℕ) (raw : List (Text × ℕ))
    → SameFrame ctx (deal_capped ctx cap_hp raw)
unfolding deal_capped
deal_capped-SameFrame ctx cap_hp [] = refl
deal_capped-SameFrame ctx cap_hp ((id, n) ∷ raw) =
    deal_capped-SameFrame (deal_damage ctx id (min n cap_hp) false).0 cap_hp raw
    ∙ frame-deal_damage ctx id (min n cap_hp) false

drop_submunition-SameFrame :
    (ids : List Text) (impact : FixedPoint) (hp : ℕ) (acc : ResolveContext × List (Text × ℕ))
    (index : ℕ)
    → SameFrame acc.0 (drop_submunition ids impact hp acc index).0
unfolding drop_submunition
drop_submunition-SameFrame ids impact hp (ctx, raw) index =
    go (nearest_living_target carved.state ids landing)
  where
    landing : FixedPoint
    landing = cluster_submunition_landing impact index

    carved : ResolveContext
    carved = carve ctx (subtract_circle landing 3)

    go :
        (o : Option Text)
        → SameFrame ctx (
            let r : ResolveContext × List (Text × ℕ) = elim o [
              | none ↦ (carved, raw)
              | some id ↦ (carved, add_raw id hp raw)
            ] in
            r.0)
    go none = frame-carve ctx (subtract_circle landing 3)
    go (some id) = frame-carve ctx (subtract_circle landing 3)

drop_submunitions-SameFrame :
    (n : ℕ) (ids : List Text) (impact : FixedPoint) (hp : ℕ)
    (acc : ResolveContext × List (Text × ℕ)) (index : ℕ)
    → SameFrame acc.0 (drop_submunitions n ids impact hp acc index).0
unfolding drop_submunitions
drop_submunitions-SameFrame zero ids impact hp acc index = refl
drop_submunitions-SameFrame (suc n) ids impact hp acc index =
    drop_submunitions-SameFrame n ids impact hp (drop_submunition ids impact hp acc index)
      (index + 1)
    ∙ drop_submunition-SameFrame ids impact hp acc index

cluster-KeepsFrame :
    (ctx : ResolveContext) (effect : SpecialEffect) → KeepsFrame ctx (resolve_cluster ctx effect)
unfolding resolve_cluster
cluster-KeepsFrame ctx effect =
    let hp = percent_to_hp effect.magnitude_secondary in
    let (carved, raw) =
      drop_submunitions (pos_part effect.magnitude) (living_opponent_ids ctx) ctx.impact_point hp
        (ctx, []) 0 in
    deal_capped-SameFrame carved (percent_to_hp (pos effect.duration_turns)) raw
    ∙ drop_submunitions-SameFrame (pos_part effect.magnitude) (living_opponent_ids ctx)
        ctx.impact_point hp (ctx, []) 0

tunnel-KeepsFrame :
    (ctx : ResolveContext) (effect : SpecialEffect) → KeepsFrame ctx (resolve_tunnel ctx effect)
unfolding resolve_tunnel
tunnel-KeepsFrame ctx effect =
    let (start_x, start_y) = to_cells ctx.impact_point in
    let stop_x = bore_stop (min (pos_part effect.magnitude) 64) ctx.state.terrain start_x start_y in
    opt_step ctx (from_cells stop_x start_y) _ _ tt λ stop_point.
      let bored = carve ctx (subtract_capsule ctx.impact_point stop_point 1) in
      let blasted = carve bored (subtract_circle stop_point 2) in
      let carved : SameFrame ctx blasted =
        frame-carve bored (subtract_circle stop_point 2)
        ∙ frame-carve ctx (subtract_capsule ctx.impact_point stop_point 1) in
      opt_step ctx ctx.primary_target_id _ _ carved
        λ id. frame-deal_damage blasted id (percent_to_hp effect.magnitude_secondary) false ∙ carved

return-KeepsFrame :
    (ctx : ResolveContext) (effect : SpecialEffect) → KeepsFrame ctx (resolve_return ctx effect)
unfolding resolve_return
return-KeepsFrame ctx effect = opt_step ctx ctx.primary_target_id _ _ tt λ id.
    let hp = percent_to_hp effect.magnitude in
    let return_id : Text = elim ctx.secondary_target_id [ none ↦ id | some id' ↦ id' ] in
    deal_capped-SameFrame ctx (percent_to_hp effect.magnitude_secondary)
      (add_raw return_id hp (add_raw id hp []))

guarantee_crit-KeepsFrame :
    (ctx : ResolveContext) (effect : SpecialEffect)
    → KeepsFrame ctx (resolve_guarantee_crit ctx effect)
unfolding frame resolve_guarantee_crit
guarantee_crit-KeepsFrame ctx effect = ground arith

pub attack_mods-KeepsFrame :
    (kind : EffectKind) (ctx : ResolveContext) (effect : SpecialEffect)
    → KeepsFrame ctx (AttackMods.resolve_kind kind ctx effect)
unfolding AttackMods.resolve_kind
attack_mods-KeepsFrame Ability.multi_strike ctx effect =
    go (resolve_multi_strike ctx effect) (multi_strike-KeepsFrame ctx effect)
  where
    go :
        (r : SimResult (ResolveContext × List StrikeResolution))
        → StrikesKeepFrame ctx r
        → KeepsFrame ctx (r >>= λ struck. ok struck.0)
    go (ok struck) h = h
    go (err e) h = tt
attack_mods-KeepsFrame Ability.guarantee_crit ctx effect = guarantee_crit-KeepsFrame ctx effect
attack_mods-KeepsFrame Ability.cluster ctx effect = cluster-KeepsFrame ctx effect
attack_mods-KeepsFrame Ability.return ctx effect = return-KeepsFrame ctx effect
attack_mods-KeepsFrame Ability.tunnel ctx effect = tunnel-KeepsFrame ctx effect
attack_mods-KeepsFrame _ ctx effect = tt
