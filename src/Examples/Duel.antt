-- ===== src/Examples/Duel.antt =====
-- A duel at concrete inputs: the turns, the outcome, the statuses and the kits.
use dungeon_barrage.Base.{
  ℕ, ◌+◌, ◌≡◌, refl, not, false, List, [], ◌∷◌, ◌++◌, map, filter, All, some, arith, length, pos,
  Text, text, text_eq, ◌-ℤ◌, negsuc,
}
use dungeon_barrage.Fixed.{FixedPoint}
use dungeon_barrage.Error.{ok}
use dungeon_barrage.Types.Ability.{chill, embers, guarantee_crit, kind_eq}
use dungeon_barrage.Types.Player.{
  PlayerState, StatusEffect, PersistentObject, PersistentObjectChange, turret,
}
use dungeon_barrage.Types.State.{
  SimulationState, MatchOutcome, match_intro, victory_check, match_complete, passed, player,
}
use dungeon_barrage.Roster.{crow_profile, erus_profile, derived_loadout}
use dungeon_barrage.Status.Duration.{aged, outlasts, ticks, ticks_lem}
use dungeon_barrage.Victory.{owned_by, removal, eliminate, evaluate, check_and_finalize}
use dungeon_barrage.Victory.Outcome.{OutcomeIs, evaluate-OutcomeIs}
use dungeon_barrage.Victory.Cleanup.{
  IsClosed, has_dead_owner, eliminate-player, check_and_finalize_lem,
}
use dungeon_barrage.Movement.{is_locked_down, walk}
use dungeon_barrage.Movement.Walk.{allowed, is_right, Walks, walk_lem}
use dungeon_barrage.Scheduler.{living_ids, next_active_player, finalize, advance_phase}
use dungeon_barrage.Scheduler.Rotation.{NextIs, next_active_player-NextIs}
use dungeon_barrage.Scheduler.Limit.{names, Checked, finalize-Checked}
use dungeon_barrage.Scheduler.Sort.{Distinct}
use dungeon_barrage.Scheduler.Progress.{
  rank-lt, LeadsOn, advance_phase-LeadsOn, run_phases, match_ends,
}

-- A duel between Crow and Erus, with a turret of each.
abbrev at : ℕ → ℕ → FixedPoint
at x y = record { x = pos x; y = pos y }

abbrev pub chilled : StatusEffect
chilled = record { kind = chill; magnitude = pos 2; turns_remaining = 3 }

abbrev burning : StatusEffect
burning = record { kind = embers; magnitude = pos 5; turns_remaining = 1 }

abbrev charged : StatusEffect
charged = record { kind = guarantee_crit; magnitude = pos 1; turns_remaining = 0 }

abbrev pub alice : PlayerState
alice = record {
  id = text "alice";
  team = 0;
  health = 250;
  max_health = 250;
  position = at 4096 8192;
  loadout = derived_loadout crow_profile;
  ammo = [];
  trinket_charge = 0;
  statuses = chilled ∷ charged ∷ [];
  appearance = record {
    skin_id = text "skin";
    ability_skin_ids = [];
    victory_pose_id = text "pose";
  };
}

abbrev pub bob : PlayerState
bob = record alice {
  id = text "bob";
  team = 1;
  health = 270;
  max_health = 270;
  position = at 40960 8192;
  loadout = derived_loadout erus_profile;
  statuses = [];
}

abbrev pub turret_of : ℕ → Text → PersistentObject
turret_of n owner = record {
  sequence = n;
  owner_id = owner;
  kind = turret;
  position = at 20480 8192;
  health = 40;
  turns_remaining = 3;
}

abbrev pub duel : SimulationState
duel = record {
  simulation_version = 1;
  content_version = 1;
  tick = 0;
  turn_number = 1;
  phase = match_intro;
  active_player_id = text "bob";
  wind_per_tick = pos 0;
  movement_remaining = pos 0;
  has_attacked_this_turn = false;
  terrain = record { width = 0; height = 0; cells = [] };
  blocks = [];
  players = alice ∷ bob ∷ [];
  objects = turret_of 0 (text "alice") ∷ turret_of 1 (text "bob") ∷ [];
  processed_command_ids = [];
  next_terrain_sequence = 0;
  next_object_sequence = 2;
  rng_state = 7;
  pending_turn_end_reason = passed;
  last_turn_end_reason = passed;
}

abbrev at_limit : SimulationState
at_limit = record duel { phase = victory_check; turn_number = 200 }

duel-Distinct : Distinct (names duel)
unfolding text_eq
duel-Distinct = ((refl, tt), (tt, tt))

living-Distinct : Distinct (living_ids duel.players)
unfolding text_eq living_ids
living-Distinct = ((refl, tt), (tt, tt))

match_ends_example :
    (t : SimulationState) × (run_phases 2010 duel ≡ ok t) × (t.phase ≡ match_complete)
match_ends_example = match_ends 2010 duel duel-Distinct (omega (arith, rank-lt duel))

advance_phase-LeadsOn_example : LeadsOn at_limit (advance_phase at_limit [] [])
advance_phase-LeadsOn_example = advance_phase-LeadsOn at_limit [] [] duel-Distinct (λ e. cc)

finalize-Checked_example :
    (t : SimulationState) × (reported : List PersistentObjectChange) × (o : MatchOutcome)
    × (finalize at_limit [] ≡ ok (t, reported, o))
    × Checked at_limit t o
finalize-Checked_example = finalize-Checked at_limit [] duel-Distinct

next_active_player-NextIs_example :
    NextIs (text "bob") (living_ids duel.players) (next_active_player duel)
next_active_player-NextIs_example = next_active_player-NextIs duel living-Distinct

evaluate-OutcomeIs_example : OutcomeIs (alice ∷ bob ∷ []) (evaluate duel)
evaluate-OutcomeIs_example = evaluate-OutcomeIs duel

alice_found : player duel (text "alice") ≡ some alice
unfolding player text_eq
alice_found = refl

eliminate-player_example :
    (t : SimulationState) × (eliminate duel (text "alice") []
      ≡ ok (t, [] ++ map removal (filter (owned_by (text "alice")) duel.objects)))
    × (player t (text "alice") ≡ some (record alice { health = 0 }))
    × All (λ o. owned_by (text "alice") o ≡ false) t.objects
    × (eliminate t (text "alice") [] ≡ ok (t, []))
eliminate-player_example = eliminate-player duel (text "alice") alice [] [] alice_found

check_and_finalize_lem_example :
    (t : SimulationState) × (reported : List PersistentObjectChange) × (o : MatchOutcome)
    × (check_and_finalize duel [] ≡ ok (t, reported, o))
    × OutcomeIs duel.players o
    × IsClosed o match_intro t.phase
    × (t.players ≡ duel.players)
    × (t.turn_number ≡ 1)
    × (t.objects ≡ filter (λ q. not (has_dead_owner duel.players q)) duel.objects)
    × (length reported + length t.objects ≡ 0 + 2)
check_and_finalize_lem_example = check_and_finalize_lem duel []

-- Statuses, kits and damage.
ticks_lem_example :
    ticks 2 (burning ∷ chilled ∷ charged ∷ [])
    ≡ map (aged 2) (filter (outlasts 2) (burning ∷ chilled ∷ charged ∷ []))
ticks_lem_example = ticks_lem 1 (burning ∷ chilled ∷ charged ∷ [])

-- Alice has a few steps left.
abbrev on_the_move : SimulationState
on_the_move = record duel { movement_remaining = pos 700 }

alice_moves : player on_the_move (text "alice") ≡ some alice
unfolding player text_eq
alice_moves = refl

alice_free : is_locked_down on_the_move (text "alice") ≡ false
unfolding is_locked_down text_eq kind_eq
alice_free = refl

walk_lem_example :
    (t : SimulationState) × (d : ℕ) × (q : FixedPoint) × (walk on_the_move
        (text "alice")
        (negsuc 999)
      ≡ ok (t, pos d))
    × (player t (text "alice") ≡ some (record alice { position = q }))
    × Walks on_the_move.terrain
        (is_right (negsuc 999))
        alice.position
        (allowed (negsuc 999) (pos 700))
        d
        q
    × (t.movement_remaining ≡ pos 700 -ℤ pos d)
walk_lem_example =
    walk_lem on_the_move (text "alice") alice (negsuc 999) alice_moves alice_free (omega arith)
      (omega arith)
