-- ===== src/Scheduler.antt =====
-- crates/db-sim-core/src/scheduler.rs: whose turn it is, the phases of a turn, and when a match ends.
pub mod Rotation
pub mod Sort
pub mod Turns
pub mod Limit
pub mod Progress
use dungeon_barrage.Base.{
  ℕ, suc, ◌+◌, ◌-◌, ◌%◌, ◌^◌, Bool, true, false, not, ◌&&◌, List, [], ◌∷◌, ◌++◌, map, filter,
  Option, none, some, if◌then◌else◌, leb, ◌==◌, min, length, get_elem?, ℤ, pos, Text, text, text_eq,
  text_lt,
}
use dungeon_barrage.Error.{SimResult, ok, err, unknown_definition, out_of_range, ◌>>=◌, ok_or}
use dungeon_barrage.Types.Ability.{per_turn}
use dungeon_barrage.Types.Player.{PlayerState, is_eliminated, PersistentObjectChange, StatusChange}
use dungeon_barrage.Types.State.{
  SimulationState, MatchOutcome, MatchPhase, match_intro, turn_start, movement,
  aiming_and_selection, passive_selection, command_locked, resolution, settling, status_resolution,
  victory_check, match_complete, TurnEndReason, player, accepts_ability_command,
}
use dungeon_barrage.Roster.{CharacterProfile, for_player, fighter_movement}
use dungeon_barrage.Status.{tick_statuses}
use dungeon_barrage.Victory.{check_and_finalize, eliminate, is_in_progress}

abbrev pub sudden_death_turn : ℕ
sudden_death_turn = 12

abbrev pub hard_turn_limit : ℕ
hard_turn_limit = 200

unfoldable pub living_ids : List PlayerState → List Text
unfolding is_eliminated
living_ids ps = map (λ p. p.id) (filter (λ p. not (is_eliminated p)) ps)

unfoldable pub min_text : Text → List Text → Text
unfolding text_lt
min_text s [] = s
min_text s (t ∷ ts) = min_text (if text_lt t s then t else s) ts

-- `Iterator::min`.
unfoldable pub least : List Text → Option Text
unfolding min_text
least [] = none
least (s ∷ ss) = some (min_text s ss)

unfoldable pub lowest_living_id : SimulationState → Option Text
unfolding living_ids least
lowest_living_id s = least (living_ids s.players)

-- The character's allowance, or the fighter's where the kit is no character's.
unfoldable pub allowance_of : Option CharacterProfile → ℤ
unfolding per_turn
allowance_of none = pos (per_turn fighter_movement)
allowance_of (some profile) = profile.movement_allowance

unfoldable pub movement_allowance_for : SimulationState → Text → SimResult ℤ
unfolding player for_player allowance_of
movement_allowance_for s id = do
  p ← ok_or (player s id) unknown_definition
  ok (allowance_of (for_player p))

unfoldable pub is_match_intro : MatchPhase → Bool
is_match_intro match_intro = true
is_match_intro _ = false

unfoldable pub begin_match : SimulationState → SimResult SimulationState
unfolding is_match_intro lowest_living_id movement_allowance_for
begin_match s =
    if is_match_intro s.phase
    then (do
      first_id ← ok_or (lowest_living_id s) (out_of_range (text "players"))
      allowance ← movement_allowance_for s first_id
      ok (record s {
        active_player_id = first_id;
        movement_remaining = allowance;
        has_attacked_this_turn = false;
        turn_number = 1;
        phase = turn_start;
      }))
    else err (out_of_range (text "phase"))

-- `sort` on texts.
unfoldable pub insert_text : Text → List Text → List Text
unfolding text_lt
insert_text s [] = s ∷ []
insert_text s (t ∷ ts) = if text_lt t s then t ∷ insert_text s ts else s ∷ t ∷ ts

unfoldable pub sort_texts : List Text → List Text
unfolding insert_text
sort_texts [] = []
sort_texts (s ∷ ss) = insert_text s (sort_texts ss)

-- `binary_search` on a sorted list of distinct texts, and the place after a text that it finds.
unfoldable pub place_after : Text → List Text → ℕ
unfolding text_lt text_eq
place_after key [] = 0
place_after key (t ∷ ts) =
    if text_lt t key then suc (place_after key ts) else if text_eq t key then 1 else 0

unfoldable pub next_active_player : SimulationState → Option Text
unfolding living_ids sort_texts place_after
next_active_player s =
    let ids = sort_texts (living_ids s.players) in
    if length ids == 0
    then none
    else get_elem? ids (place_after s.active_player_id ids % length ids)

unfoldable pub is_accepting_commands : SimulationState → Bool
unfolding accepts_ability_command
is_accepting_commands s = accepts_ability_command s.phase

unfoldable pub is_sudden_death_active : SimulationState → Bool
unfolding living_ids
is_sudden_death_active s = length (living_ids s.players) == 2 && leb sudden_death_turn s.turn_number

-- `turn_number` is a u32 and stops at its largest value.
unfoldable pub end_turn : SimulationState → TurnEndReason → SimResult SimulationState
unfolding next_active_player movement_allowance_for
end_turn s reason = do
  let ended = record s { last_turn_end_reason = reason }
  next_id ← ok_or (next_active_player ended) (out_of_range (text "active_player_id"))
  allowance ← movement_allowance_for ended next_id
  ok (record ended {
    active_player_id = next_id;
    movement_remaining = allowance;
    has_attacked_this_turn = false;
    turn_number = min (s.turn_number + 1) (2 ^ 32 - 1);
  })

unfoldable pub eliminate_all :
    List Text
    → SimulationState
    → List PersistentObjectChange
    → SimResult (SimulationState × List PersistentObjectChange)
unfolding eliminate
eliminate_all [] s changes = ok (s, changes)
eliminate_all (id ∷ ids) s changes = do
  (s', changes') ← eliminate s id changes
  eliminate_all ids s' changes'

unfoldable pub force_draw :
    SimulationState
    → List PersistentObjectChange
    → SimResult (SimulationState × List PersistentObjectChange)
unfolding living_ids eliminate_all
force_draw s changes = eliminate_all (living_ids s.players) s changes

-- The checked state, its changes and outcome, with the draw forced at the turn limit.
unfoldable pub finalize :
    SimulationState
    → List PersistentObjectChange
    → SimResult (SimulationState × List PersistentObjectChange × MatchOutcome)
finalize s changes = do
  (s1, c1, outcome) ← check_and_finalize s changes
  if is_in_progress outcome && leb hard_turn_limit s1.turn_number
      then (do (s2, c2) ← force_draw s1 c1; check_and_finalize s2 c2)
      else ok (s1, c1, outcome)

unfoldable pub leave_victory_check :
    SimulationState
    → List PersistentObjectChange
    → SimResult (SimulationState × List PersistentObjectChange)
leave_victory_check s changes = do
  (s', changes', outcome) ← finalize s changes
  if is_in_progress outcome
      then (do
        next ← end_turn s' s'.pending_turn_end_reason
        ok (record next { phase = turn_start }, changes'))
      else ok (record s' { last_turn_end_reason = s'.pending_turn_end_reason }, changes')

-- The state after the call, with the status and object changes that it appends; the phase that the
-- source returns is that of the new state.
pub record Advance : Type 0 where
  pub state : SimulationState
  pub status_changes : List StatusChange
  pub object_changes : List PersistentObjectChange

abbrev enter :
    MatchPhase
    → SimulationState
    → List StatusChange
    → List PersistentObjectChange
    → SimResult Advance
enter phase s status_changes object_changes = ok (record {
  state = record s { phase = phase };
  status_changes = status_changes;
  object_changes = object_changes;
})

unfoldable pub advance_from :
    MatchPhase
    → SimulationState
    → List StatusChange
    → List PersistentObjectChange
    → SimResult Advance
advance_from match_intro s st ob = enter turn_start s st ob
advance_from turn_start s st ob = enter movement s st ob
advance_from movement s st ob = enter aiming_and_selection s st ob
advance_from aiming_and_selection s st ob = enter command_locked s st ob
advance_from passive_selection s st ob = enter settling s st ob
advance_from command_locked s st ob = enter resolution s st ob
advance_from resolution s st ob = enter settling s st ob
advance_from settling s st ob = enter status_resolution s st ob
advance_from status_resolution s st ob =
    let (s', changes) = tick_statuses s s.active_player_id in
    enter victory_check s' (st ++ changes) ob
advance_from victory_check s st ob = do
  (s', changes) ← leave_victory_check s ob
  ok (record { state = s'; status_changes = st; object_changes = changes })
advance_from match_complete s st ob = enter match_complete s st ob

unfoldable pub advance_phase :
    SimulationState → List StatusChange → List PersistentObjectChange → SimResult Advance
advance_phase s st ob = advance_from s.phase s st ob
