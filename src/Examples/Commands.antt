-- ===== src/Examples/Commands.antt =====
-- Commands, flights and effects at concrete inputs.
use dungeon_barrage.Base.{◌≡◌, ◌↔◌, ◌⊎◌, refl, true, [], ◌∷◌, none, some, pos, text, ◌≤ℤ◌}
use dungeon_barrage.Error.{ok}
use dungeon_barrage.Types.Ability.{
  reach, basic_alt, on_impact, heal, SpecialEffect, ProjectileAttack, untouched,
}
use dungeon_barrage.Types.Terrain.{TerrainMask}
use dungeon_barrage.Types.Player.{PlayerState}
use dungeon_barrage.Types.State.{SimulationState, movement}
use dungeon_barrage.Types.Outcome.{
  AbilityCommand, CommandOutcome, accepted, rejected, duplicate_command, BallisticInput,
  BallisticResult,
}
use dungeon_barrage.Roster.{erus_profile, derived_loadout}
use dungeon_barrage.Fixed.{apply_basis_points}
use dungeon_barrage.Ballistics.{
  FlightWorld, FlightState, bounds_max_x, bounds_max_y, launch_velocity, integrate,
}
use dungeon_barrage.Ballistics.Way.{Flies}
use dungeon_barrage.Ballistics.Samples.{Lands}
use dungeon_barrage.Ballistics.Flight.{IsLaunched, integrate-Lands}
use dungeon_barrage.Resolve.Dispatch.{resolve_silent, resolve_by_kind, resolve_effect}
use dungeon_barrage.Resolve.Displacement.Effects.{resolve}
use dungeon_barrage.Resolve.Dispatch.Weapons.{StrikesKeepFrame}
use dungeon_barrage.Resolve.Dispatch.Effect.{resolve_effect-KeepsFrame}
use dungeon_barrage.Resolve.Detonation.{Knives, insert_number, detonate_pending, triggered_by}
use dungeon_barrage.Resolve.Detonation.Chain.{detonations-end}
use dungeon_barrage.Command.{is_found, binary_search, valid, validate_ability}
use dungeon_barrage.Command.Ledger.{Ascending, record_id, record_id-found}
use dungeon_barrage.Command.Legal.{IsLegal, validate_ability_iff}
use dungeon_barrage.Command.Apply.{
  context_of, perform, resolve_effects, resolve_ability, apply_ability,
}
use dungeon_barrage.Command.Attack.{resolve_attack, apply_backlash}
use dungeon_barrage.Command.Apply.Once.{
  IsAtomic, apply_ability-IsAtomic, run_commands, apply_ability_once,
}
use dungeon_barrage.Examples.Duel.{alice, bob, duel}
use dungeon_barrage.Roster.Kits.{erus_staff_thrust}

-- Bob may thrust his staff, with Alice within its reach.
abbrev near_bob : PlayerState
near_bob = record alice { position = record { x = pos 40000; y = pos 8192 } }

abbrev fight : SimulationState
fight = record duel {
  phase = movement;
  movement_remaining = pos 4096;
  players = near_bob ∷ bob ∷ [];
  processed_command_ids = text "a" ∷ [];
}

abbrev thrust : AbilityCommand
thrust = record {
  command_id = text "b";
  player_id = text "bob";
  expected_turn_number = 1;
  slot = basic_alt;
  angle_millidegrees = pos 0;
  power_basis_points = pos 0;
  target_player_id = some (text "alice");
  secondary_target_player_id = none;
}

fight-Ascending : Ascending fight.processed_command_ids
fight-Ascending = (tt, tt)

committed :
    (t : SimulationState) × (outcome : CommandOutcome) × (apply_ability fight thrust
      ≡ (t, accepted outcome))
unfolding apply_ability validate_ability derived_loadout resolve_ability perform resolve_attack
    reach resolve_effects resolve_effect resolve_by_kind resolve_silent resolve apply_backlash
committed = (_, _, refl)

apply_ability_once_example :
    apply_ability (run_commands (thrust ∷ []) committed.0) thrust
    ≡ (run_commands (thrust ∷ []) committed.0, rejected duplicate_command)
apply_ability_once_example =
    apply_ability_once fight committed.0 thrust thrust committed.1 (thrust ∷ []) fight-Ascending
      committed.2 refl

apply_ability-IsAtomic_example : IsAtomic fight thrust (apply_ability fight thrust)
apply_ability-IsAtomic_example = apply_ability-IsAtomic fight thrust

validate_ability_iff_example :
    (validate_ability fight thrust ≡ valid (erus_profile, erus_staff_thrust))
    ↔ IsLegal fight thrust erus_profile erus_staff_thrust
validate_ability_iff_example = validate_ability_iff fight thrust erus_profile erus_staff_thrust

record_id-found_example :
    Ascending (record_id (text "b") (text "a" ∷ []))
    × ((is_found (binary_search (text "c") (record_id (text "b") (text "a" ∷ []))) ≡ true)
        ↔ ((text "c" ≡ text "b") ⊎ (is_found (binary_search (text "c") (text "a" ∷ [])) ≡ true)))
record_id-found_example = record_id-found (text "b") (text "c") (text "a" ∷ []) fight-Ascending

abbrev mending : SpecialEffect
mending = record {
  trigger = on_impact;
  kind = heal;
  magnitude = pos 20;
  magnitude_secondary = pos 0;
  duration_turns = 0;
}

resolve_effect-KeepsFrame_example :
    StrikesKeepFrame
      (context_of fight thrust bob.position)
      (resolve_effect (context_of fight thrust bob.position) mending)
resolve_effect-KeepsFrame_example =
    resolve_effect-KeepsFrame (context_of fight thrust bob.position) mending

-- A short flight over a field of two cells.
abbrev field : TerrainMask
field = record { width = 2; height = 1; cells = 0 ∷ 1 ∷ [] }

abbrev shot : ProjectileAttack
shot = record {
  speed_per_tick = pos 512;
  gravity_per_tick = pos 10;
  wind_scale_basis_points = pos 0;
  max_ticks = 4;
  bounces = 0;
  terrain = untouched;
}

abbrev aim : BallisticInput
aim = record {
  origin = record { x = pos 256; y = pos 256 };
  angle_millidegrees = pos 0;
  power_basis_points = pos 10_000;
  wind_per_tick = pos 0;
}

flown : (r : BallisticResult) × (integrate aim shot field [] ≡ ok r)
unfolding integrate bounds_max_x bounds_max_y launch_velocity apply_basis_points
flown = (_, refl)

integrate-Lands_example :
    (pos 1 ≤ℤ pos 10_000)
    × (pos 10_000 ≤ℤ pos 10_000)
    × ((w : FlightWorld) × (start : FlightState) × IsLaunched aim shot field [] w start
        × Flies w start 4 flown.0)
    × Lands field [] 4 flown.0
integrate-Lands_example = integrate-Lands aim shot field [] flown.0 flown.1

-- Three knives in a row.
abbrev row : Knives
row =
    (0, record { x = pos 0; y = pos 0 })
    ∷ (1, record { x = pos 4000; y = pos 0 })
    ∷ (2, record { x = pos 9000; y = pos 0 })
    ∷ []

detonations-end_example :
    (detonate_pending 3
      (pos 6000)
      20
      2
      row
      (context_of fight thrust bob.position)
      (insert_number 0 (triggered_by 0 (record { x = pos 0; y = pos 0 }) row))
      []).pending
    ≡ []
detonations-end_example =
    detonations-end (pos 6000) 20 2 row (context_of fight thrust bob.position) 0
      (record { x = pos 0; y = pos 0 }) refl
