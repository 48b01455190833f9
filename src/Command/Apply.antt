-- ===== src/Command/Apply.antt =====
-- crates/db-sim-core/src/command.rs: an ability command, checked and applied. The work is done on a copy,
-- so that a command that is refused leaves the match as it was.
pub mod Atomic
pub mod Once
use dungeon_barrage.Base.{
  ℕ, ◌+◌, ◌-◌, ◌^◌, Bool, true, ◌||◌, List, [], ◌∷◌, ◌++◌, map, length, if◌then◌else◌, ◌==◌, min,
  none, some, Text,
}
use dungeon_barrage.Fixed.{FixedPoint}
use dungeon_barrage.Error.{ok, err}
use dungeon_barrage.Types.Ability.{AbilitySlot, consumes_gauge, AbilityDefinition, SpecialEffect}
use dungeon_barrage.Types.Player.{PlayerState, spend_ammo}
use dungeon_barrage.Types.State.{SimulationState, player, update_player}
use dungeon_barrage.Types.Outcome.{
  AbilityCommand, PassiveChoiceCommand, CommandRejection, player_eliminated, invalid_target,
  passive_already_chosen, StrikeResolution, CommandOutcome, CommandResult, accepted, rejected,
}
use dungeon_barrage.Hash.{hash_state}
use dungeon_barrage.Resolve.{ResolveContext}
use dungeon_barrage.Resolve.AttackMods.Hits.{index_u16}
use dungeon_barrage.Resolve.Dispatch.{resolve_effect}
use dungeon_barrage.Command.{
  Checked, valid, refused, ◌>>=◌, known, trinket_charge_full, validate_ability,
}
use dungeon_barrage.Command.Ledger.{record_id}
use dungeon_barrage.Command.Attack.{Action, resolve_attack, apply_backlash}

-- What a committed command costs: the charge of a trinket, or ammunition and the turn's attack.
unfoldable pub spend : SimulationState → AbilityCommand → SimulationState
unfolding consumes_gauge update_player spend_ammo
spend s c =
    if consumes_gauge c.slot
    then update_player s c.player_id (λ p. record p { trinket_charge = 0 })
    else record (update_player s c.player_id (λ p. spend_ammo p c.slot)) {
      has_attacked_this_turn = true;
    }

abbrev pub context_of : SimulationState → AbilityCommand → FixedPoint → ResolveContext
context_of s c origin = record {
  state = s;
  rng = record { state = s.rng_state };
  actor_id = c.player_id;
  primary_target_id = c.target_player_id;
  secondary_target_id = c.secondary_target_player_id;
  impact_point = origin;
  damage = [];
  terrain_ops = [];
  object_changes = [];
  random_outcomes = [];
  terrain_cells_removed = 0;
  status_changes = [];
}

-- The strikes of an effect are numbered after those before them.
unfoldable pub renumber : List StrikeResolution → List StrikeResolution → List StrikeResolution
renumber strikes [] = strikes
renumber strikes (r ∷ rs) =
    renumber (strikes ++ record r { strike_index = index_u16 (length strikes) } ∷ []) rs

-- The effects of an ability, in their order.
unfoldable pub resolve_effects : List SpecialEffect → Action → Checked Action
resolve_effects [] a = valid a
resolve_effects (effect ∷ effects) a = elim (resolve_effect a.context effect) [
  | err _ ↦ refused invalid_target
  | ok (next, reported) ↦
      resolve_effects effects (record a { context = next; strikes = renumber a.strikes reported })
]

unfoldable pub award_gauge : SimulationState → Text → ℕ → SimulationState
unfolding update_player
award_gauge s player_id dealt =
    if dealt == 0
    then s
    else update_player s player_id (λ p. record p {
      trinket_charge = min (min (p.trinket_charge + 5_000) (2 ^ 16 - 1)) trinket_charge_full;
    })

-- The match after the effects: the gauge, the generator and the ledger.
unfoldable pub settle_command : AbilityCommand → Action → SimulationState
unfolding award_gauge consumes_gauge record_id
settle_command c a =
    let awarded =
      award_gauge a.context.state c.player_id (if consumes_gauge c.slot then 0 else a.dealt) in
    record awarded {
      rng_state = a.context.rng.state;
      processed_command_ids = record_id c.command_id awarded.processed_command_ids;
    }

abbrev pub outcome_of : SimulationState → AbilityCommand → Action → SimulationState → CommandOutcome
outcome_of before c a after = record {
  command_id = c.command_id;
  turn_number_before = before.turn_number;
  turn_number_after = after.turn_number;
  projectile_traces = a.traces;
  terrain_ops = a.context.terrain_ops;
  damage = map (λ entry. entry.1) a.context.damage;
  object_changes = a.context.object_changes;
  strikes = a.strikes;
  random_outcomes = a.context.random_outcomes;
  status_changes = a.context.status_changes;
  gauge_gained = 0;
  terrain_cells_removed = a.context.terrain_cells_removed;
  final_state_hash = hash_state after;
}

-- The attack, its backlash and its effects.
unfoldable pub perform : SimulationState → AbilityCommand → AbilityDefinition → Checked Action
unfolding spend player
perform s c ability = do
  let paid = spend s c
  actor ← known (player paid c.player_id) player_eliminated
  attacked ←
      resolve_attack ability.attack c ability actor.position (record {
        context = context_of paid c actor.position;
        strikes = [];
        traces = [];
        dealt = 0;
      })
  resolve_effects ability.effects
      (record attacked { context = apply_backlash ability.attack attacked.context })

unfoldable pub resolve_ability :
    SimulationState
    → AbilityCommand
    → AbilityDefinition
    → Checked (SimulationState × CommandOutcome)
resolve_ability s c ability = do
  a ← perform s c ability
  let after = settle_command c a
  valid (after, outcome_of s c a after)

-- The match is written back only on success.
abbrev pub result_of :
    SimulationState → Checked (SimulationState × CommandOutcome) → SimulationState × CommandResult
result_of s (refused rejection) = (s, rejected rejection)
result_of s (valid (after, outcome)) = (after, accepted outcome)

unfoldable pub apply_ability : SimulationState → AbilityCommand → SimulationState × CommandResult
apply_ability s c = result_of s (validate_ability s c >>= λ checked. resolve_ability s c checked.1)

-- A choice of a passive is always refused.
unfoldable pub apply_passive_choice :
    SimulationState → PassiveChoiceCommand → SimulationState × CommandResult
apply_passive_choice s c = (s, rejected passive_already_chosen)
