-- ===== src/Resolve.antt =====
-- crates/db-sim-core/src/resolve/mod.rs: the context that the effects of an action read and change.
-- A resolver takes the context and returns it.
pub mod Events
pub mod Support
pub mod Statuses
pub mod Displacement
pub mod Objects
pub mod TerrainDamage
pub mod AttackMods
pub mod Relocation
pub mod Detonation
pub mod Dispatch
use dungeon_barrage.Base.{
  ℕ, ◌+◌, ◌-◌, ◌^◌, Bool, false, not, ◌&&◌, List, [], ◌∷◌, map, filter, Option, none, some,
  if◌then◌else◌, ltb, min, pos, ℤ, negsuc, Text, text_eq, text_lt, sort_by,
}
use dungeon_barrage.Fixed.{FixedPoint}
use dungeon_barrage.Rng.{Rng}
use dungeon_barrage.Types.Terrain.{TerrainOperation}
use dungeon_barrage.Types.Player.{PlayerState, is_eliminated, PersistentObjectChange, StatusChange}
use dungeon_barrage.Types.State.{SimulationState}
use dungeon_barrage.Types.Outcome.{DamageEvent, RandomOutcome}

-- The map of damage events is a list of pairs with ascending keys.
pub record ResolveContext : Type 0 where
  pub state : SimulationState
  pub rng : Rng
  pub actor_id : Text
  pub primary_target_id : Option Text
  pub secondary_target_id : Option Text
  pub impact_point : FixedPoint
  pub damage : List (Text × DamageEvent)
  pub terrain_ops : List TerrainOperation
  pub object_changes : List PersistentObjectChange
  pub random_outcomes : List RandomOutcome
  pub terrain_cells_removed : ℕ
  pub status_changes : List StatusChange

abbrev pub no_damage : Text → DamageEvent
no_damage player_id = record {
  player_id = player_id;
  direct = 0;
  splash = 0;
  backlash = 0;
  hazard = 0;
  wall_impact = 0;
  healed = 0;
  was_critical = false;
  knockback = record { x = pos 0; y = pos 0 };
  eliminated = false;
}

-- `BTreeMap::entry`, `or_insert_with` and a write to the entry.
unfoldable pub update_entry :
    Text → (DamageEvent → DamageEvent) → List (Text × DamageEvent) → List (Text × DamageEvent)
update_entry id f [] = (id, f (no_damage id)) ∷ []
update_entry id f ((key, event) ∷ events) =
    let rest = update_entry id f events in
    if text_eq key id
    then (key, f event) ∷ events
    else if text_lt id key
    then (id, f (no_damage id)) ∷ (key, event) ∷ events
    else (key, event) ∷ rest

unfoldable pub damage_entry : ResolveContext → Text → (DamageEvent → DamageEvent) → ResolveContext
unfolding update_entry
damage_entry ctx player_id f = record ctx { damage = update_entry player_id f ctx.damage }

unfoldable pub living_opponent_ids : ResolveContext → List Text
unfolding sort_by text_lt text_eq is_eliminated
living_opponent_ids ctx = sort_by text_lt (
    map (λ p. p.id)
      (filter (λ p. not (is_eliminated p) && not (text_eq p.id ctx.actor_id)) ctx.state.players))

unfoldable pub next_object_sequence : ResolveContext → ℕ × ResolveContext
next_object_sequence ctx = (
  ctx.state.next_object_sequence,
  record ctx {
    state = record ctx.state {
      next_object_sequence = min (ctx.state.next_object_sequence + 1) (2 ^ 32 - 1);
    };
  },
)

unfoldable pub next_terrain_sequence : ResolveContext → ℕ × ResolveContext
next_terrain_sequence ctx = (
  ctx.state.next_terrain_sequence,
  record ctx {
    state = record ctx.state {
      next_terrain_sequence = min (ctx.state.next_terrain_sequence + 1) (2 ^ 32 - 1);
    };
  },
)

-- `u16::try_from(n).unwrap_or(0)`, and `u16::saturating_add`.
abbrev pub to_u16 : ℤ → ℕ
to_u16 (pos n) = if ltb n (2 ^ 16) then n else 0
to_u16 (negsuc n) = 0

abbrev pub add_u16 : ℕ → ℕ → ℕ
add_u16 m n = min (m + n) (2 ^ 16 - 1)
