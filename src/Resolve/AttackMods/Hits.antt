-- ===== src/Resolve/AttackMods/Hits.antt =====
-- crates/db-sim-core/src/resolve/attack_mods.rs: damage to a target, forced critical hits, and the
-- strikes of an ability that strikes several times.
use dungeon_barrage.Base.{
  ℕ, zero, suc, ◌+◌, ◌-◌, ◌*◌, ◌/◌, ◌%◌, ◌^◌, Bool, true, false, not, ◌&&◌, ◌||◌, List, [], ◌∷◌,
  ◌++◌, filter, Option, none, some, if◌then◌else◌, ltb, ◌==◌, min, max, ℤ, pos, pos_part, ◌-ℤ◌,
  leb_ℤ, Text, text,
}
use dungeon_barrage.Rng.{bounded_value}
use dungeon_barrage.Error.{SimResult, ok, err, out_of_range}
use dungeon_barrage.Types.Ability.{SpecialEffect, guarantee_crit, multi_strike, kind_eq}
use dungeon_barrage.Types.Player.{
  is_eliminated, StatusEffect, StatusChange, charge_consumed, exhausted,
}
use dungeon_barrage.Types.State.{SimulationState, player, update_player}
use dungeon_barrage.Types.Outcome.{
  CritRoll, not_eligible, missed, landed, forced, is_critical, StrikeDelivery, StrikeResolution,
}
use dungeon_barrage.Status.{find_kind}
use dungeon_barrage.Resolve.{ResolveContext, damage_entry, add_u16}
use dungeon_barrage.Resolve.Support.{percent_to_hp, with_health}

-- The context after the hit, and what was taken off the health.
unfoldable pub deal_damage : ResolveContext → Text → ℕ → Bool → ResolveContext × ℕ
unfolding player update_player damage_entry is_eliminated
deal_damage ctx target_id amount critical =
    if amount == 0 then (ctx, 0) else elim (player ctx.state target_id) [
      | none ↦ (ctx, 0)
      | some p ↦
          let actual = min amount p.health in
          let eliminated_now = is_eliminated (record p { health = p.health - amount }) in
          let hurt = with_health ctx target_id (λ q. q.health - amount) in
          (
            damage_entry hurt target_id (λ e. record e {
              direct = add_u16 e.direct actual;
              was_critical = e.was_critical || critical;
              eliminated = e.eliminated || eliminated_now;
            }),
            actual,
          )
    ]

-- The first mark with one charge less; none is left over when that was the last.
unfoldable pub lower_mark : List StatusEffect → List StatusEffect
unfolding kind_eq ◌-ℤ◌
lower_mark [] = []
lower_mark (s ∷ ss) =
    if kind_eq s.kind guarantee_crit
    then record s { magnitude = s.magnitude -ℤ pos 1 } ∷ ss
    else s ∷ lower_mark ss

unfoldable pub spend_mark : ℤ → List StatusEffect → List StatusEffect
unfolding lower_mark kind_eq
spend_mark remaining ss =
    if leb_ℤ remaining (pos 0)
    then filter (λ s. not (kind_eq s.kind guarantee_crit)) ss
    else lower_mark ss

abbrev pub mark_change : Text → ℤ → StatusChange
mark_change target_id remaining = record {
  player_id = target_id;
  kind = guarantee_crit;
  transition = if leb_ℤ remaining (pos 0) then exhausted else charge_consumed remaining;
}

-- The charges of a player's mark, if it has any.
unfoldable pub mark_of : SimulationState → Text → Option ℤ
unfolding player find_kind
mark_of s target_id = elim (player s target_id) [
  | none ↦ none
  | some p ↦ elim (find_kind guarantee_crit p.statuses) [
    | none ↦ none
    | some mark ↦ if leb_ℤ mark.magnitude (pos 0) then none else some mark.magnitude
  ]
]

unfoldable pub consume_guarantee_crit :
    SimulationState → List StatusChange → Text → Bool × SimulationState × List StatusChange
unfolding mark_of update_player spend_mark ◌-ℤ◌
consume_guarantee_crit s changes target_id = elim (mark_of s target_id) [
  | none ↦ (false, s, changes)
  | some charges ↦
      let remaining = charges -ℤ pos 1 in
      (
        true,
        update_player s target_id (λ q. record q { statuses = spend_mark remaining q.statuses }),
        changes ++ mark_change target_id remaining ∷ [],
      )
]

abbrev pub crit_roll_bound : ℕ
crit_roll_bound = 10_000

-- `u16::try_from(n).unwrap_or(u16::MAX)`.
abbrev pub index_u16 : ℕ → ℕ
index_u16 n = min n (2 ^ 16 - 1)

unfoldable pub is_alive : SimulationState → Text → Bool
unfolding player is_eliminated
is_alive s id = elim (player s id) [ none ↦ false | some p ↦ not (is_eliminated p) ]

unfoldable pub is_down : SimulationState → Text → Bool
unfolding player is_eliminated
is_down s id = elim (player s id) [ none ↦ false | some p ↦ is_eliminated p ]

-- The critical hit of a strike, unless forced: a chance of none draws nothing.
unfoldable pub roll_strike : ResolveContext → ℕ → CritRoll × ResolveContext
roll_strike ctx chance =
    let (roll, rng) = bounded_value ctx.rng crit_roll_bound in
    if chance == 0
    then (not_eligible, ctx)
    else (if ltb roll chance then landed else missed, record ctx { rng = rng })

unfoldable pub strike_crit : ResolveContext → Text → ℕ → CritRoll × ResolveContext
unfolding consume_guarantee_crit roll_strike
strike_crit ctx target_id chance =
    let (is_forced, s, changes) = consume_guarantee_crit ctx.state ctx.status_changes target_id in
    let next = record ctx { state = s; status_changes = changes } in
    if is_forced then (forced, next) else roll_strike next chance

-- One strike of several, by its index.
unfoldable pub strike_once :
    ResolveContext → Text → ℕ → ℕ → ℕ → ℕ → ResolveContext × StrikeResolution
unfolding strike_crit deal_damage is_alive is_down is_critical
strike_once ctx target_id plain_hp crit_hp chance index =
    let (crit, rolled) = strike_crit ctx target_id chance in
    let hp = if is_critical crit then crit_hp else plain_hp in
    let was_alive = is_alive rolled.state target_id in
    let (hurt, actual) = deal_damage rolled target_id hp (is_critical crit) in
    (
      hurt,
      record {
        strike_index = index_u16 index;
        target_player_id = target_id;
        impact_point = ctx.impact_point;
        delivery = StrikeDelivery.effect multi_strike;
        crit = crit;
        damage_applied = actual;
        eliminated_target = was_alive && is_down hurt.state target_id;
      },
    )

-- So many strikes, from an index on.
unfoldable pub strike_times :
    ℕ → ResolveContext → Text → ℕ → ℕ → ℕ → ℕ → ResolveContext × List StrikeResolution
unfolding strike_once
strike_times zero ctx target_id plain_hp crit_hp chance index = (ctx, [])
strike_times (suc n) ctx target_id plain_hp crit_hp chance index =
    let (next, record') = strike_once ctx target_id plain_hp crit_hp chance index in
    let (last, records) = strike_times n next target_id plain_hp crit_hp chance (index + 1) in
    (last, record' ∷ records)

-- The secondary magnitude packs the critical percentage above the plain one.
unfoldable pub damage_percents : SpecialEffect → ℕ × ℕ
damage_percents effect =
    let packed = pos_part effect.magnitude_secondary in (packed % 1_000, packed / 1_000)

unfoldable pub resolve_multi_strike :
    ResolveContext → SpecialEffect → SimResult (ResolveContext × List StrikeResolution)
unfolding damage_percents percent_to_hp strike_times
resolve_multi_strike ctx effect = elim ctx.primary_target_id [
  | none ↦ err (out_of_range (text "multi_strike.primary_target_id"))
  | some target_id ↦
      let (plain, critical) = damage_percents effect in
      ok (
        strike_times (max (pos_part effect.magnitude) 1) ctx target_id (percent_to_hp (pos plain))
          (percent_to_hp (pos critical)) (effect.duration_turns * 100) 0)
]
