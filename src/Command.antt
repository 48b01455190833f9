-- ===== src/Command.antt =====
-- crates/db-sim-core/src/command.rs: the commands of a client, checked against the match state.
pub mod Ledger
pub mod Legal
pub mod Attack
pub mod Apply
use dungeon_barrage.Base.{
  ℕ, suc, ◌*◌, ◌/◌, ◌+◌, ◌^◌, Bool, true, false, not, ◌&&◌, ◌||◌, List, [], ◌∷◌, Option, none, some,
  if◌then◌else◌, ltb, ◌==◌, min, ℤ, pos, negsuc, pos_part, leb_ℤ, ltb_ℤ, max_ℤ, Text, text, text_eq,
  text_lt,
}
use dungeon_barrage.Types.Ability.{AbilitySlot, consumes_gauge, per_turn, AbilityDefinition}
use dungeon_barrage.Types.Player.{PlayerState, is_eliminated}
use dungeon_barrage.Types.State.{SimulationState, player, accepts_ability_command}
use dungeon_barrage.Types.Outcome.{
  AbilityCommand, CommandRejection, duplicate_command, player_eliminated, not_active_player,
  wrong_phase, turn_version_mismatch, ability_not_available, gauge_not_ready, already_attacked,
  input_out_of_range, invalid_target,
}
use dungeon_barrage.Roster.{CharacterProfile, find_character, for_player, fighter_movement}
use dungeon_barrage.Items.{equipped_ability}

abbrev pub trinket_charge_full : ℕ
trinket_charge_full = 10_000

-- What `slice::binary_search_by` says of a text in a sorted list: where it is, or where it belongs.
pub data Place : Type 0 where
  found : ℕ → Place
  missing : ℕ → Place

abbrev pub after_one : Place → Place
after_one (found i) = found (suc i)
after_one (missing i) = missing (suc i)

unfoldable pub binary_search : Text → List Text → Place
unfolding text_eq text_lt
binary_search id [] = missing 0
binary_search id (x ∷ xs) =
    let rest = binary_search id xs in
    if text_eq x id then found 0 else if text_lt id x then missing 0 else after_one rest

abbrev pub is_found : Place → Bool
is_found (found i) = true
is_found (missing i) = false

unfoldable pub has_processed : SimulationState → Text → Bool
unfolding binary_search
has_processed s id = is_found (binary_search id s.processed_command_ids)

-- A check passes on a value or refuses the command.
pub data Checked {ℓ} (A : Type ℓ) : Type ℓ where
  valid : A → Checked A
  refused : CommandRejection → Checked A

infixl 5 ◌>>=◌ ◌>>◌
abbrev pub ◌>>=◌ {ℓ κ} : {A : Type ℓ} {B : Type κ} → Checked A → (A → Checked B) → Checked B
valid a >>= f = f a
refused e >>= f = refused e

abbrev pub ◌>>◌ {ℓ} : {B : Type ℓ} → Checked (Unit {0}) → Checked B → Checked B
m >> k = m >>= λ _. k

abbrev pub refuse_if : Bool → CommandRejection → Checked (Unit {0})
refuse_if b e = if b then refused e else valid tt

abbrev pub known {ℓ} : {A : Type ℓ} → Option A → CommandRejection → Checked A
known none e = refused e
known (some a) e = valid a

-- The allowance of the active player's character, or else that of the one fighter.
unfoldable pub launch_allowance : SimulationState → ℤ
unfolding per_turn
launch_allowance s = elim (player s s.active_player_id) [
  | none ↦ pos (per_turn fighter_movement)
  | some p ↦ elim (for_player p) [
    | none ↦ pos (per_turn fighter_movement)
    | some profile ↦ profile.movement_allowance
  ]
]

-- The full power's share that the rest of the allowance is in it; it is no more than an i32 holds
-- or is taken for the full power, and a tenth of it at least.
unfoldable pub scaled_power : ℤ → ℤ → ℤ
scaled_power allowance remaining =
    let scaled = 10_000 * pos_part remaining / pos_part allowance in
    if leb_ℤ allowance (pos 0)
    then pos 10_000
    else max_ℤ (if ltb scaled (2 ^ 31) then pos scaled else pos 10_000) (pos 1_000)

unfoldable pub max_launch_power : SimulationState → ℤ
unfolding launch_allowance scaled_power
max_launch_power s = scaled_power (launch_allowance s) s.movement_remaining

-- A target that a command names is a living player.
unfoldable pub validate_target : SimulationState → Option Text → Checked (Unit {0})
unfolding player is_eliminated
validate_target s none = valid tt
validate_target s (some id) = do
  p ← known (player s id) invalid_target
  refuse_if (is_eliminated p) invalid_target

abbrev pub names_twice : Option Text → Option Text → Bool
names_twice (some id) (some secondary_id) = text_eq id secondary_id
names_twice _ _ = false

unfoldable pub validate_targets : SimulationState → AbilityCommand → Checked (Unit {0})
unfolding validate_target
validate_targets s c = do
  validate_target s c.target_player_id
  validate_target s c.secondary_target_player_id
  refuse_if (names_twice c.target_player_id c.secondary_target_player_id) invalid_target

unfoldable pub profile_for : PlayerState → Option CharacterProfile
unfolding for_player find_character
profile_for p = elim (for_player p) [
  | some profile ↦ some profile
  | none ↦ find_character (text "crow")
]

-- The actor of a command, with the character and the ability, up to the gauge.
unfoldable pub validate_actor : SimulationState → AbilityCommand → Checked PlayerState
unfolding has_processed player is_eliminated accepts_ability_command
validate_actor s c = do
  refuse_if (has_processed s c.command_id) duplicate_command
  p ← known (player s c.player_id) player_eliminated
  refuse_if (is_eliminated p) player_eliminated
  refuse_if (not (text_eq c.player_id s.active_player_id)) not_active_player
  refuse_if (not (accepts_ability_command s.phase)) wrong_phase
  refuse_if (not (c.expected_turn_number == s.turn_number)) turn_version_mismatch
  valid p

-- The gauge, the one attack of a turn, and the ranges of the inputs.
unfoldable pub validate_inputs : SimulationState → AbilityCommand → PlayerState → Checked (Unit {0})
unfolding consumes_gauge max_launch_power
validate_inputs s c p = do
  refuse_if (consumes_gauge c.slot && ltb p.trinket_charge trinket_charge_full) gauge_not_ready
  refuse_if (not (consumes_gauge c.slot) && s.has_attacked_this_turn) already_attacked
  refuse_if (ltb_ℤ c.angle_millidegrees (pos 0) || leb_ℤ (pos 360_000) c.angle_millidegrees)
      input_out_of_range
  refuse_if (ltb_ℤ c.power_basis_points (pos 0) || ltb_ℤ (pos 10_000) c.power_basis_points)
      input_out_of_range
  refuse_if (ltb_ℤ (max_launch_power s) c.power_basis_points) input_out_of_range

unfoldable pub validate_ability :
    SimulationState → AbilityCommand → Checked (CharacterProfile × AbilityDefinition)
unfolding validate_actor profile_for equipped_ability validate_inputs validate_targets
validate_ability s c = do
  p ← validate_actor s c
  profile ← known (profile_for p) ability_not_available
  a ← known (equipped_ability p c.slot) ability_not_available
  validate_inputs s c p
  validate_targets s c
  valid (profile, a)
