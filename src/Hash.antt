-- ===== src/Hash.antt =====
-- crates/db-sim-core/src/hash.rs: the canonical form of the match state, and its hash. The
-- implementation of `Canonical` for a type is the writer of that type.
pub mod Emit
pub mod Streams
pub mod Unique
pub mod Identity
pub mod Order
use dungeon_barrage.Base.{ℕ, Bool, List, [], ◌∷◌, length, ltb, ℤ, Text, text_lt, sort_by}
use dungeon_barrage.Fixed.{FixedPoint}
use dungeon_barrage.Types.Ability.{
  AbilitySlot, basic, basic_alt, special, trinket, RangeTier, melee, tier1, tier2, tier3,
  MovementClass, slow, normal, fast, EffectTrigger, on_fire, on_flight, on_impact, on_turn_end,
  EffectKind, kind_rank, knockback, chill, cluster, embers, tunnel, return, recoil, self_damage,
  teleport, pull, push, wall_impact, lockdown, spawn_turret, heal, health_transfer, multi_strike,
  guarantee_crit, embed_projectile, chain_detonate, relocate, obscure,
}
use dungeon_barrage.Types.Terrain.{
  Material, empty, soil, wood, reinforced_stone, TerrainMask, MaterialMask, TerrainOperation,
  TerrainShape, ErosionAxis, columns, rows, TerrainBlock,
}
use dungeon_barrage.Types.Player.{
  AmmoPolicy, finite, unlimited, AmmoCounter, ammo_for, StatusEffect, PersistentObject,
  PersistentObjectKind, turret, embedded_knife, gas_cloud, PlayerState,
}
use dungeon_barrage.Types.State.{
  SimulationState, MatchPhase, match_intro, turn_start, movement, aiming_and_selection,
  passive_selection, command_locked, resolution, settling, status_resolution, victory_check,
  match_complete, TurnEndReason, attacked, passed, timed_out, eliminated,
}
use dungeon_barrage.Canonical.{
  CanonicalHasher, write_u8, write_u32, write_i32, write_u64, write_bool, write_length, write_bytes,
  write_str, write_domain_separator, write_items, hash_canonical, metadata_domain, players_domain,
  terrain_domain, commands_domain, write_slice,
}

abbrev pub objects_domain_tag : ℕ
objects_domain_tag = 5

abbrev pub blocks_domain_tag : ℕ
blocks_domain_tag = 6

unfoldable pub turn_end_reason_discriminant : TurnEndReason → ℕ
turn_end_reason_discriminant attacked = 0
turn_end_reason_discriminant passed = 1
turn_end_reason_discriminant timed_out = 2
turn_end_reason_discriminant eliminated = 3

unfoldable pub ability_slot_discriminant : AbilitySlot → ℕ
ability_slot_discriminant basic = 0
ability_slot_discriminant basic_alt = 1
ability_slot_discriminant special = 2
ability_slot_discriminant trinket = 3

unfoldable pub ammo_policy_discriminant : AmmoPolicy → ℕ
ammo_policy_discriminant finite = 0
ammo_policy_discriminant unlimited = 1

unfoldable pub range_tier_discriminant : RangeTier → ℕ
range_tier_discriminant melee = 0
range_tier_discriminant tier1 = 1
range_tier_discriminant tier2 = 2
range_tier_discriminant tier3 = 3

unfoldable pub movement_class_discriminant : MovementClass → ℕ
movement_class_discriminant slow = 0
movement_class_discriminant normal = 1
movement_class_discriminant fast = 2

unfoldable pub effect_trigger_discriminant : EffectTrigger → ℕ
effect_trigger_discriminant on_fire = 0
effect_trigger_discriminant on_flight = 1
effect_trigger_discriminant on_impact = 2
effect_trigger_discriminant on_turn_end = 3

unfoldable pub effect_kind_discriminant : EffectKind → ℕ
effect_kind_discriminant knockback = 0
effect_kind_discriminant chill = 1
effect_kind_discriminant cluster = 2
effect_kind_discriminant embers = 3
effect_kind_discriminant tunnel = 4
effect_kind_discriminant return = 5
effect_kind_discriminant recoil = 6
effect_kind_discriminant self_damage = 7
effect_kind_discriminant teleport = 8
effect_kind_discriminant pull = 9
effect_kind_discriminant push = 10
effect_kind_discriminant wall_impact = 11
effect_kind_discriminant lockdown = 12
effect_kind_discriminant spawn_turret = 13
effect_kind_discriminant heal = 14
effect_kind_discriminant health_transfer = 15
effect_kind_discriminant multi_strike = 16
effect_kind_discriminant guarantee_crit = 17
effect_kind_discriminant embed_projectile = 18
effect_kind_discriminant chain_detonate = 19
effect_kind_discriminant relocate = 20
effect_kind_discriminant obscure = 21

unfoldable pub material_discriminant : Material → ℕ
material_discriminant empty = 0
material_discriminant soil = 1
material_discriminant wood = 2
material_discriminant reinforced_stone = 3

unfoldable pub persistent_object_kind_discriminant : PersistentObjectKind → ℕ
persistent_object_kind_discriminant turret = 0
persistent_object_kind_discriminant embedded_knife = 1
persistent_object_kind_discriminant gas_cloud = 2

unfoldable pub match_phase_discriminant : MatchPhase → ℕ
match_phase_discriminant match_intro = 0
match_phase_discriminant turn_start = 1
match_phase_discriminant movement = 2
match_phase_discriminant aiming_and_selection = 3
match_phase_discriminant passive_selection = 4
match_phase_discriminant command_locked = 5
match_phase_discriminant resolution = 6
match_phase_discriminant settling = 7
match_phase_discriminant status_resolution = 8
match_phase_discriminant victory_check = 9
match_phase_discriminant match_complete = 10

unfoldable pub erosion_axis_discriminant : ErosionAxis → ℕ
erosion_axis_discriminant columns = 0
erosion_axis_discriminant rows = 1

unfoldable pub write_point : FixedPoint → CanonicalHasher → CanonicalHasher
write_point p h = write_i32 p.y (write_i32 p.x h)

unfoldable pub write_shape : TerrainShape → CanonicalHasher → CanonicalHasher
write_shape (TerrainShape.subtract_circle center radius_cells) h =
    write_u32 radius_cells (write_point center (write_u8 0 h))
write_shape (TerrainShape.subtract_capsule start end radius_cells) h =
    write_u32 radius_cells (write_point end (write_point start (write_u8 1 h)))

unfoldable pub write_operation : TerrainOperation → CanonicalHasher → CanonicalHasher
write_operation op h = write_u8 op.material_mask (write_shape op.shape (write_u32 op.sequence h))

unfoldable pub write_terrain : TerrainMask → CanonicalHasher → CanonicalHasher
write_terrain mask h0 =
    let h1 = write_domain_separator terrain_domain h0 in
    let h2 = write_u32 mask.width h1 in
    let h3 = write_u32 mask.height h2 in write_bytes mask.cells h3

unfoldable pub write_status : StatusEffect → CanonicalHasher → CanonicalHasher
write_status status h =
    write_u8 status.turns_remaining
      (write_i32 status.magnitude (write_u8 (effect_kind_discriminant status.kind) h))

unfoldable pub write_object : PersistentObject → CanonicalHasher → CanonicalHasher
write_object object h0 =
    let h1 = write_u32 object.sequence h0 in
    let h2 = write_str object.owner_id h1 in
    let h3 = write_u8 (persistent_object_kind_discriminant object.kind) h2 in
    let h4 = write_point object.position h3 in
    let h5 = write_u32 object.health h4 in write_u8 object.turns_remaining h5

-- The body of the loop over the combat slots.
unfoldable pub write_ammo : AmmoCounter → CanonicalHasher → CanonicalHasher
write_ammo ammo h =
    write_u32 ammo.maximum
      (write_u32 ammo.remaining (write_u8 (ammo_policy_discriminant ammo.policy) h))

-- The statuses in the order of their kinds.
unfoldable pub sorted_statuses : List StatusEffect → List StatusEffect
unfolding sort_by kind_rank
sorted_statuses = sort_by (λ s t. ltb (kind_rank s.kind) (kind_rank t.kind))

unfoldable pub write_player : PlayerState → CanonicalHasher → CanonicalHasher
write_player p h0 =
    let h1 = write_str p.id h0 in
    let h2 = write_u8 p.team h1 in
    let h3 = write_u32 p.health h2 in
    let h4 = write_u32 p.max_health h3 in
    let h5 = write_point p.position h4 in
    let h6 = write_str p.loadout.main h5 in
    let h7 = write_str p.loadout.secondary h6 in
    let h8 = write_str p.loadout.melee_tool h7 in
    let h9 = write_str p.loadout.trinket h8 in
    let h10 = write_u32 p.trinket_charge h9 in
    let h11 = write_ammo (ammo_for p basic) h10 in
    let h12 = write_ammo (ammo_for p basic_alt) h11 in
    let h13 = write_ammo (ammo_for p special) h12 in
    write_slice write_status (sorted_statuses p.statuses) h13

unfoldable pub write_block : TerrainBlock → CanonicalHasher → CanonicalHasher
write_block block h0 =
    let h1 = write_u32 block.id h0 in
    let h2 = write_i32 block.origin_cell_x h1 in
    let h3 = write_i32 block.origin_cell_y h2 in
    let h4 = write_u32 block.width_cells h3 in
    let h5 = write_u32 block.height_cells h4 in
    let h6 = write_u8 (material_discriminant block.material) h5 in
    let h7 = write_u32 block.health h6 in
    let h8 = write_u32 block.max_health h7 in
    write_u8 (erosion_axis_discriminant block.erosion_axis) h8

unfoldable pub sorted_players : List PlayerState → List PlayerState
unfolding sort_by text_lt
sorted_players = sort_by (λ p q. text_lt p.id q.id)

unfoldable pub sorted_objects : List PersistentObject → List PersistentObject
unfolding sort_by
sorted_objects = sort_by (λ a b. ltb a.sequence b.sequence)

unfoldable pub sorted_blocks : List TerrainBlock → List TerrainBlock
unfolding sort_by
sorted_blocks = sort_by (λ a b. ltb a.id b.id)

unfoldable pub sorted_command_ids : List Text → List Text
unfolding sort_by text_lt
sorted_command_ids = sort_by text_lt

unfoldable pub write_metadata : SimulationState → CanonicalHasher → CanonicalHasher
write_metadata s h0 =
    let h1 = write_domain_separator metadata_domain h0 in
    let h2 = write_u32 s.simulation_version h1 in
    let h3 = write_u32 s.content_version h2 in
    let h4 = write_u64 s.tick h3 in
    let h5 = write_u32 s.turn_number h4 in
    let h6 = write_u8 (match_phase_discriminant s.phase) h5 in
    let h7 = write_str s.active_player_id h6 in
    let h8 = write_i32 s.wind_per_tick h7 in
    let h9 = write_i32 s.movement_remaining h8 in
    let h10 = write_bool s.has_attacked_this_turn h9 in
    let h11 = write_u32 s.next_terrain_sequence h10 in
    let h12 = write_u32 s.next_object_sequence h11 in
    let h13 = write_u64 s.rng_state h12 in
    let h14 = write_u8 (turn_end_reason_discriminant s.pending_turn_end_reason) h13 in
    write_u8 (turn_end_reason_discriminant s.last_turn_end_reason) h14

unfoldable pub write_state : SimulationState → CanonicalHasher → CanonicalHasher
write_state s h0 =
    let h1 = write_metadata s h0 in
    let h2 =
      write_slice write_player (sorted_players s.players)
        (write_domain_separator players_domain h1) in
    let h3 =
      write_slice write_object (sorted_objects s.objects)
        (write_domain_separator objects_domain_tag h2) in
    let h4 =
      write_slice write_block (sorted_blocks s.blocks)
        (write_domain_separator blocks_domain_tag h3) in
    let h5 = write_terrain s.terrain h4 in
    write_slice write_str (sorted_command_ids s.processed_command_ids)
      (write_domain_separator commands_domain h5)

unfoldable pub hash_state : SimulationState → Text
hash_state s = hash_canonical write_state s

unfoldable pub hash_terrain : TerrainMask → Text
hash_terrain mask = hash_canonical write_terrain mask
