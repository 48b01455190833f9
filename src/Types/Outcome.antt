-- ===== src/Types/Outcome.antt =====
-- Commands and what their execution reports, as crates/db-sim-core/src/types.rs declares them.
use dungeon_barrage.Base.{ℕ, List, Bool, true, false, Option, ℤ, Text, text}
use dungeon_barrage.Fixed.{FixedPoint}
use dungeon_barrage.Types.Ability.{AbilitySlot, EffectKind}
use dungeon_barrage.Types.Terrain.{TerrainOperation}
use dungeon_barrage.Types.Player.{
  StatusTransition, applied, refreshed, charge_consumed, ticked, exhausted, expired, StatusChange,
  PersistentObjectChange,
}

pub record AbilityCommand : Type 0 where
  pub command_id : Text
  pub player_id : Text
  pub expected_turn_number : ℕ
  pub slot : AbilitySlot
  pub angle_millidegrees : ℤ
  pub power_basis_points : ℤ
  pub target_player_id : Option Text
  pub secondary_target_player_id : Option Text

pub record PassiveChoiceCommand : Type 0 where
  pub command_id : Text
  pub player_id : Text
  pub expected_turn_number : ℕ
  pub passive_id : Text

pub data CommandRejection : Type 0 where
  duplicate_command not_active_player wrong_phase turn_version_mismatch : CommandRejection
  ability_not_available gauge_not_ready out_of_ammo already_attacked : CommandRejection
  input_out_of_range player_eliminated invalid_target : CommandRejection
  unknown_character invalid_passive passive_already_chosen : CommandRejection

unfoldable pub is_security_event : CommandRejection → Bool
is_security_event not_active_player = true
is_security_event ability_not_available = true
is_security_event input_out_of_range = true
is_security_event unknown_character = true
is_security_event invalid_passive = true
is_security_event _ = false

pub record DamageEvent : Type 0 where
  pub player_id : Text
  pub direct : ℕ
  pub splash : ℕ
  pub backlash : ℕ
  pub hazard : ℕ
  pub wall_impact : ℕ
  pub healed : ℕ
  pub was_critical : Bool
  pub knockback : FixedPoint
  pub eliminated : Bool

pub data CritRoll : Type 0 where
  not_eligible missed landed forced : CritRoll

unfoldable pub consumed_draw : CritRoll → Bool
consumed_draw missed = true
consumed_draw landed = true
consumed_draw _ = false

unfoldable pub is_critical : CritRoll → Bool
is_critical landed = true
is_critical forced = true
is_critical _ = false

unfoldable pub crit_wire_name : CritRoll → Text
crit_wire_name not_eligible = text "notEligible"
crit_wire_name missed = text "missed"
crit_wire_name landed = text "landed"
crit_wire_name forced = text "forced"

-- The number is a trace's sequence.
pub data StrikeDelivery : Type 0 where
  projectile : ℕ → StrikeDelivery
  melee : StrikeDelivery
  effect : EffectKind → StrikeDelivery

pub record StrikeResolution : Type 0 where
  pub strike_index : ℕ
  pub target_player_id : Text
  pub impact_point : FixedPoint
  pub delivery : StrikeDelivery
  pub crit : CritRoll
  pub damage_applied : ℕ
  pub eliminated_target : Bool

-- The arguments are in the order of the fields in the source.
pub data RandomOutcome : Type 0 where
  arzum_chain_strike_teleport_target : ℕ → ℕ → Text → FixedPoint → RandomOutcome
  aleph_veilstep_teleport_point : ℕ → ℕ → ℕ → Bool → FixedPoint → FixedPoint → RandomOutcome

unfoldable pub purpose_wire_name : RandomOutcome → Text
purpose_wire_name (arzum_chain_strike_teleport_target _ _ _ _) =
    text "arzumChainStrikeTeleportTarget"
purpose_wire_name (aleph_veilstep_teleport_point _ _ _ _ _ _) = text "alephVeilstepTeleportPoint"

unfoldable pub removes_status : StatusTransition → Bool
removes_status exhausted = true
removes_status expired = true
removes_status _ = false

unfoldable pub transition_wire_name : StatusTransition → Text
transition_wire_name (applied _ _) = text "applied"
transition_wire_name (refreshed _ _ _ _) = text "refreshed"
transition_wire_name (charge_consumed _) = text "chargeConsumed"
transition_wire_name (ticked _) = text "ticked"
transition_wire_name exhausted = text "exhausted"
transition_wire_name expired = text "expired"

pub record BallisticSample : Type 0 where
  pub tick : ℕ
  pub position : FixedPoint

pub data ImpactCause : Type 0 where
  terrain character out_of_bounds expired_flight : ImpactCause

pub record BallisticImpact : Type 0 where
  pub position : FixedPoint
  pub tick : ℕ
  pub cause : ImpactCause

pub record BallisticInput : Type 0 where
  pub origin : FixedPoint
  pub angle_millidegrees : ℤ
  pub power_basis_points : ℤ
  pub wind_per_tick : ℤ

pub record BallisticResult : Type 0 where
  pub samples : List BallisticSample
  pub impact : BallisticImpact

pub record ProjectileTrace : Type 0 where
  pub sequence : ℕ
  pub samples : List BallisticSample
  pub impact : BallisticImpact

pub record CommandOutcome : Type 0 where
  pub command_id : Text
  pub turn_number_before : ℕ
  pub turn_number_after : ℕ
  pub projectile_traces : List ProjectileTrace
  pub terrain_ops : List TerrainOperation
  pub damage : List DamageEvent
  pub object_changes : List PersistentObjectChange
  pub strikes : List StrikeResolution
  pub random_outcomes : List RandomOutcome
  pub status_changes : List StatusChange
  pub gauge_gained : ℕ
  pub terrain_cells_removed : ℕ
  pub final_state_hash : Text

pub data CommandResult : Type 0 where
  accepted : CommandOutcome → CommandResult
  rejected : CommandRejection → CommandResult
