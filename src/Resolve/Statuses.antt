-- ===== src/Resolve/Statuses.antt =====
-- crates/db-sim-core/src/resolve/status.rs: chill, lockdown and embers.
pub mod Embers
pub mod Pinned
use dungeon_barrage.Base.{
  ℕ, Bool, false, not, ◌&&◌, List, [], ◌∷◌, ◌++◌, filter, Option, none, some, if◌then◌else◌, pos, ℤ,
  Text, text,
}
use dungeon_barrage.Fixed.{FixedPoint, body_width, within_radius}
use dungeon_barrage.Error.{SimResult, ok, err, unknown_definition, out_of_range}
use dungeon_barrage.Types.Ability.{SpecialEffect, EffectKind, chill, lockdown, embers}
use dungeon_barrage.Types.Player.{PlayerState, StatusEffect, StatusChange, is_eliminated}
use dungeon_barrage.Types.State.{player, update_player}
use dungeon_barrage.Status.{apply_status}
use dungeon_barrage.Resolve.{ResolveContext, living_opponent_ids}

-- The status of a kind that an effect gives.
abbrev pub status_of : EffectKind → SpecialEffect → StatusEffect
status_of kind effect = record {
  kind = kind;
  magnitude = effect.magnitude;
  turns_remaining = effect.duration_turns;
}

-- `apply_status` on the player of a name, if there is one.
unfoldable pub afflict : ResolveContext → Text → StatusEffect → Option ResolveContext
unfolding player update_player apply_status
afflict ctx id status = elim (player ctx.state id) [
  | none ↦ none
  | some p ↦ some (record ctx {
    state = update_player ctx.state id (λ q. (apply_status q status).0);
    status_changes = ctx.status_changes ++ (apply_status p status).1 ∷ [];
  })
]

unfoldable pub afflict_all : ResolveContext → List Text → StatusEffect → ResolveContext
unfolding afflict
afflict_all ctx [] status = ctx
afflict_all ctx (id ∷ ids) status =
    let next : ResolveContext = elim (afflict ctx id status) [ none ↦ ctx | some after ↦ after ] in
    afflict_all next ids status

-- Whether a player of the name stands within a body's width of the impact.
unfoldable pub is_hit : ResolveContext → Text → Bool
unfolding player within_radius
is_hit ctx id = elim (player ctx.state id) [
  | none ↦ false
  | some p ↦ within_radius p.position ctx.impact_point (pos body_width)
]

unfoldable pub resolve_chill : ResolveContext → SpecialEffect → SimResult ResolveContext
unfolding afflict afflict_all is_hit living_opponent_ids
resolve_chill ctx effect = elim ctx.primary_target_id [
  | some target_id ↦ elim (afflict ctx target_id (status_of chill effect)) [
    | none ↦ err unknown_definition
    | some after ↦ ok after
  ]
  | none ↦
      ok (afflict_all ctx (filter (is_hit ctx) (living_opponent_ids ctx)) (status_of chill effect))
]

unfoldable pub resolve_lockdown : ResolveContext → SpecialEffect → SimResult ResolveContext
unfolding afflict
resolve_lockdown ctx effect = elim ctx.primary_target_id [
  | none ↦ err (out_of_range (text "lockdown.primary_target_id"))
  | some target_id ↦ elim (afflict ctx target_id (status_of lockdown effect)) [
    | none ↦ err unknown_definition
    | some after ↦ ok after
  ]
]

-- Whether embers reach a player.
unfoldable pub is_singed : FixedPoint → SpecialEffect → PlayerState → Bool
unfolding within_radius is_eliminated
is_singed impact effect p =
    not (is_eliminated p) && within_radius p.position impact effect.magnitude_secondary

-- The players and the changes after the loop of `resolve_embers`.
unfoldable pub ember_players :
    FixedPoint → SpecialEffect → List PlayerState → List PlayerState × List StatusChange
unfolding is_singed apply_status
ember_players impact effect [] = ([], [])
ember_players impact effect (p ∷ ps) =
    let (players, changes) = ember_players impact effect ps in
    let (q, change) = apply_status p (status_of embers effect) in
    if is_singed impact effect p then (q ∷ players, change ∷ changes) else (p ∷ players, changes)

unfoldable pub resolve_embers : ResolveContext → SpecialEffect → SimResult ResolveContext
unfolding ember_players
resolve_embers ctx effect =
    let (players, changes) = ember_players ctx.impact_point effect ctx.state.players in
    ok (record ctx {
      state = record ctx.state { players = players };
      status_changes = ctx.status_changes ++ changes;
    })

unfoldable pub resolve_kind : EffectKind → ResolveContext → SpecialEffect → SimResult ResolveContext
unfolding resolve_chill resolve_lockdown resolve_embers
resolve_kind chill ctx effect = resolve_chill ctx effect
resolve_kind lockdown ctx effect = resolve_lockdown ctx effect
resolve_kind embers ctx effect = resolve_embers ctx effect
resolve_kind _ ctx effect = err (out_of_range (text "effect.kind (not a status-family effect)"))

unfoldable pub resolve : ResolveContext → SpecialEffect → SimResult ResolveContext
unfolding resolve_kind
resolve ctx effect = resolve_kind effect.kind ctx effect
