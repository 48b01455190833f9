-- ===== src/Types/State.antt =====
-- The match state, as crates/db-sim-core/src/types.rs declares it, and access to its players.
use dungeon_barrage.Base.{
  ℕ, Bool, true, false, List, [], ◌∷◌, Option, find, if◌then◌else◌, ℤ, Text, text_eq,
}
use dungeon_barrage.Types.Terrain.{TerrainMask, TerrainBlock}
use dungeon_barrage.Types.Player.{PlayerState, PersistentObject}

pub data MatchPhase : Type 0 where
  match_intro turn_start movement aiming_and_selection passive_selection command_locked : MatchPhase
  resolution settling status_resolution victory_check match_complete : MatchPhase

unfoldable pub accepts_ability_command : MatchPhase → Bool
accepts_ability_command movement = true
accepts_ability_command aiming_and_selection = true
accepts_ability_command _ = false

pub data MatchOutcome : Type 0 where
  in_progress : MatchOutcome
  victory : ℕ → MatchOutcome
  draw : MatchOutcome

pub data TurnEndReason : Type 0 where
  attacked passed timed_out eliminated : TurnEndReason

pub record SimulationState : Type 0 where
  pub simulation_version : ℕ
  pub content_version : ℕ
  pub tick : ℕ
  pub turn_number : ℕ
  pub phase : MatchPhase
  pub active_player_id : Text
  pub wind_per_tick : ℤ
  pub movement_remaining : ℤ
  pub has_attacked_this_turn : Bool
  pub terrain : TerrainMask
  pub blocks : List TerrainBlock
  pub players : List PlayerState
  pub objects : List PersistentObject
  pub processed_command_ids : List Text
  pub next_terrain_sequence : ℕ
  pub next_object_sequence : ℕ
  pub rng_state : ℕ
  pub pending_turn_end_reason : TurnEndReason
  pub last_turn_end_reason : TurnEndReason

unfoldable pub player : SimulationState → Text → Option PlayerState
player s id = find (λ p. text_eq p.id id) s.players

-- What a write through `player_mut` does: the first player of that name is changed, if there is one.
unfoldable pub update_first :
    Text → (PlayerState → PlayerState) → List PlayerState → List PlayerState
update_first id f [] = []
update_first id f (p ∷ ps) = if text_eq p.id id then f p ∷ ps else p ∷ update_first id f ps

unfoldable pub update_player :
    SimulationState → Text → (PlayerState → PlayerState) → SimulationState
unfolding update_first
update_player s id f = record s { players = update_first id f s.players }
