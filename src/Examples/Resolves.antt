-- ===== src/Examples/Resolves.antt =====
-- Jumps, falls and the effects of abilities at concrete inputs.
use dungeon_barrage.Base.{
  AllAgree, not, ℕ, ◌+◌, ◌-◌, ◌<◌, ◌≤◌, ◌≡◌, refl, inl, Bool, false, [], ◌∷◌, ◌++◌, map, filter,
  All, none, some, min, arith, pos, ◌-ℤ◌, sat_i32, text, text_eq,
}
use dungeon_barrage.Error.{ok}
use dungeon_barrage.Fixed.{FixedPoint, to_cells}
use dungeon_barrage.Fixed.Divide.{abs}
use dungeon_barrage.Rng.{from_state}
use dungeon_barrage.Types.Ability.{
  SpecialEffect, EffectKind, heal, health_transfer, embers, on_impact, kind_eq,
}
use dungeon_barrage.Types.Terrain.{is_solid}
use dungeon_barrage.Types.Player.{PlayerState, is_eliminated}
use dungeon_barrage.Types.State.{SimulationState, player}
use dungeon_barrage.Terrain.{material_at, is_solid_at}
use dungeon_barrage.Movement.{
  is_locked_down, jump, max_fall_steps, can_stand_at, settle_player, fallen,
}
use dungeon_barrage.Movement.Vertical.{Rises, raised, charged, jump-Rises}
use dungeon_barrage.Movement.Fall.{Landing, settle_player-Landing}
use dungeon_barrage.Resolve.{ResolveContext, to_u16}
use dungeon_barrage.Resolve.Support.{resolve}
use dungeon_barrage.Resolve.Support.Health.{Bounded, transferable, resolve-transfer}
use dungeon_barrage.Resolve.Support.Bounds.{resolve-Bounded}
use dungeon_barrage.Resolve.Statuses
use dungeon_barrage.Resolve.Statuses.Embers.{Embers, ember_change, marked, resolve-embers}
use dungeon_barrage.Resolve.Objects.{owns_turret, new_turret, spawn_turret}
use dungeon_barrage.Resolve.Objects.Turret.{spawn_turret_lem}
use dungeon_barrage.Resolve.Displacement.{step_toward, sweep, sweep_count, max_sweep_steps}
use dungeon_barrage.Resolve.Displacement.Sweep.{swept, StopsAt, sweep-StopsAt}
use dungeon_barrage.Resolve.Displacement.Step.{IsStep, step_toward-IsStep}
use dungeon_barrage.Examples.Duel.{alice, bob, duel}

-- A shaft of four cells over solid ground, with Alice in the air and Bob, wounded, below her.
abbrev high : PlayerState
high = record alice { position = record { x = pos 512; y = pos 512 } }

abbrev wounded : PlayerState
wounded = record bob { health = 100; position = record { x = pos 512; y = pos 2560 } }

abbrev shaft : SimulationState
shaft = record duel {
  terrain = record { width = 1; height = 4; cells = 0 ∷ 0 ∷ 0 ∷ 1 ∷ [] };
  players = high ∷ wounded ∷ [];
  movement_remaining = pos 4096;
}

high_found : player shaft (text "alice") ≡ some high
unfolding player text_eq
high_found = refl

wounded_found : player shaft (text "bob") ≡ some wounded
unfolding player text_eq
wounded_found = refl

not_locked : is_locked_down shaft (text "alice") ≡ false
unfolding is_locked_down player text_eq kind_eq
not_locked = refl

jump-Rises_example :
    (t : SimulationState) × (risen : ℕ) × (jump shaft (text "alice") ≡ ok (t, pos risen))
    × Rises shaft.terrain high.position risen
    × (player t (text "alice") ≡ some (record high { position = raised high.position risen }))
    × (t.movement_remaining ≡ charged (pos 4096) risen)
jump-Rises_example =
    jump-Rises shaft (text "alice") high high_found not_locked
      ((omega arith, omega arith), omega arith)

in_the_open :
    (is_eliminated high ≡ false)
    × (is_solid_at shaft.terrain high.position ≡ false)
    × (can_stand_at shaft high.position ≡ false)
unfolding is_eliminated is_solid_at can_stand_at to_cells material_at is_solid
in_the_open = (refl, refl, refl)

settle_player-Landing_example :
    (result : FixedPoint × Bool) × Landing shaft high.position max_fall_steps result
    × (player (settle_player shaft 0 (text "alice")).0 (text "alice")
        ≡ some (fallen result.0 result.1 high))
settle_player-Landing_example =
    settle_player-Landing shaft 0 (text "alice") high high_found in_the_open.0
      (omega arith, omega arith) in_the_open.1 in_the_open.2

-- Effects of Alice on Bob.
abbrev effect_of : EffectKind → SpecialEffect
effect_of kind = record {
  trigger = on_impact;
  kind = kind;
  magnitude = pos 30;
  magnitude_secondary = pos 4096;
  duration_turns = 2;
}

abbrev on_bob : ResolveContext
on_bob = record {
  state = shaft;
  rng = from_state 7;
  actor_id = text "alice";
  primary_target_id = some (text "bob");
  secondary_target_id = none;
  impact_point = record { x = pos 512; y = pos 3072 };
  damage = [];
  terrain_ops = [];
  object_changes = [];
  random_outcomes = [];
  terrain_cells_removed = 0;
  status_changes = [];
}

two_players : text_eq (text "alice") (text "bob") ≡ false
unfolding text_eq
two_players = refl

resolve-transfer_example :
    (after : ResolveContext) × (n : ℕ) × (resolve on_bob (effect_of health_transfer) ≡ ok after)
    × (n ≡ transferable (to_u16 (pos 30)) high wounded)
    × (player after.state (text "alice") ≡ some (record high { health = 250 - n }))
    × (player after.state (text "bob") ≡ some (record wounded { health = 100 + n }))
    × (250 - n + (100 + n) ≡ 250 + 100)
    × (100 + n ≤ 270)
    × (min 1 250 ≤ 250 - n)
resolve-transfer_example =
    resolve-transfer on_bob (effect_of health_transfer) (text "bob") high wounded refl refl
      high_found wounded_found two_players (omega arith, omega arith)

resolve-Bounded_example :
    (after : ResolveContext) × (resolve on_bob (effect_of heal) ≡ ok after)
    × All Bounded after.state.players
resolve-Bounded_example =
    resolve-Bounded on_bob (effect_of heal) (inl refl)
      ((omega arith, omega arith), ((omega arith, omega arith), tt))

resolve-embers_example :
    (after : ResolveContext) × (Statuses.resolve on_bob (effect_of embers) ≡ ok after)
    × AllAgree (Embers on_bob.impact_point (effect_of embers)) shaft.players after.state.players
    × (after.status_changes
        ≡ []
          ++ map
              (ember_change (effect_of embers))
              (marked on_bob.impact_point (effect_of embers) shaft.players))
resolve-embers_example = resolve-embers on_bob (effect_of embers) refl

abbrev up : FixedPoint
up = record { x = pos 0; y = pos 256 }

sweep-StopsAt_example :
    (after : ResolveContext) × (k : ℕ) × (sweep on_bob (text "alice") up (pos 4096)
      ≡ ok (after, swept high.position up k))
    × (player after.state (text "alice")
        ≡ some (record high { position = swept high.position up k }))
    × StopsAt shaft.terrain up high.position (sweep_count up (pos 4096)) k
    × (k ≤ max_sweep_steps)
sweep-StopsAt_example = sweep-StopsAt on_bob (text "alice") high up (pos 4096) high_found

apart : 0 < abs (sat_i32 (pos 512 -ℤ pos 512)) + abs (sat_i32 (pos 2560 -ℤ pos 512))
unfolding sat_i32 ◌-ℤ◌
apart = omega arith

step_toward-IsStep_example :
    (step : FixedPoint) × (step_toward high.position wounded.position ≡ some step)
    × IsStep (sat_i32 (pos 512 -ℤ pos 512)) (sat_i32 (pos 2560 -ℤ pos 512)) step
step_toward-IsStep_example = step_toward-IsStep high.position wounded.position apart

-- A sweep by two steps' length takes three steps.
sweep_goes_too_far : sweep_count up (pos 512) ≡ 3
unfolding sweep_count
sweep_goes_too_far = refl

spawn_turret_lem_example :
    (after : ResolveContext) × (spawn_turret on_bob (effect_of heal) ≡ ok after)
    × (filter (owns_turret (text "alice")) after.state.objects
        ≡ new_turret on_bob (effect_of heal) ∷ [])
    × (filter (λ o. not (owns_turret (text "alice") o)) after.state.objects
        ≡ filter (λ o. not (owns_turret (text "alice") o)) shaft.objects)
spawn_turret_lem_example = spawn_turret_lem on_bob (effect_of heal)
