-- ===== src/Hash/Emit.antt =====
-- The byte layout of the match state, written before a rest. It has the sections of the table in
-- crates/db-sim-core/src/hash.rs, and what the writers there add to it: a section of the blocks after that of the
-- objects, and the two reasons for the end of a turn in the metadata.
use dungeon_barrage.Base.{ℕ, List}
use dungeon_barrage.Fixed.{FixedPoint}
use dungeon_barrage.Types.Ability.{basic, basic_alt, special}
use dungeon_barrage.Types.Terrain.{TerrainMask, TerrainBlock}
use dungeon_barrage.Types.Player.{
  AmmoCounter, ammo_for, StatusEffect, PersistentObject, PlayerState,
}
use dungeon_barrage.Types.State.{SimulationState}
use dungeon_barrage.Canonical.{metadata_domain, players_domain, terrain_domain, commands_domain}
use dungeon_barrage.Canonical.Bytes.{
  emit_u8, emit_u32, emit_i32, emit_u64, emit_bool, emit_str, emit_separator, emit_slice,
}
use dungeon_barrage.Hash.{
  objects_domain_tag, blocks_domain_tag, turn_end_reason_discriminant, ammo_policy_discriminant,
  effect_kind_discriminant, material_discriminant, persistent_object_kind_discriminant,
  match_phase_discriminant, erosion_axis_discriminant, sorted_statuses, sorted_players,
  sorted_objects, sorted_blocks, sorted_command_ids,
}

unfoldable pub emit_point : FixedPoint → List ℕ → List ℕ
emit_point p r = emit_i32 p.x (emit_i32 p.y r)

unfoldable pub emit_terrain : TerrainMask → List ℕ → List ℕ
emit_terrain mask r =
    emit_separator terrain_domain
      (emit_u32 mask.width (emit_u32 mask.height (emit_str mask.cells r)))

unfoldable pub emit_status : StatusEffect → List ℕ → List ℕ
emit_status s r =
    emit_u8 (effect_kind_discriminant s.kind) (emit_i32 s.magnitude (emit_u8 s.turns_remaining r))

unfoldable pub emit_object : PersistentObject → List ℕ → List ℕ
emit_object o r = emit_u32 o.sequence (
    emit_str o.owner_id (
      emit_u8 (persistent_object_kind_discriminant o.kind)
        (emit_point o.position (emit_u32 o.health (emit_u8 o.turns_remaining r)))))

unfoldable pub emit_ammo : AmmoCounter → List ℕ → List ℕ
emit_ammo a r =
    emit_u8 (ammo_policy_discriminant a.policy) (emit_u32 a.remaining (emit_u32 a.maximum r))

-- The four carried items, then the charge, the three counters and the statuses.
unfoldable pub emit_gear : PlayerState → List ℕ → List ℕ
emit_gear p r = emit_str p.loadout.main (
    emit_str p.loadout.secondary (
      emit_str p.loadout.melee_tool (
        emit_str p.loadout.trinket (
          emit_u32 p.trinket_charge (
            emit_ammo (ammo_for p basic) (
              emit_ammo (ammo_for p basic_alt) (
                emit_ammo (ammo_for p special)
                  (emit_slice emit_status (sorted_statuses p.statuses) r))))))))

unfoldable pub emit_player : PlayerState → List ℕ → List ℕ
emit_player p r = emit_str p.id (
    emit_u8 p.team
      (emit_u32 p.health (emit_u32 p.max_health (emit_point p.position (emit_gear p r)))))

unfoldable pub emit_block : TerrainBlock → List ℕ → List ℕ
emit_block b r = emit_u32 b.id (
    emit_i32 b.origin_cell_x (
      emit_i32 b.origin_cell_y (
        emit_u32 b.width_cells (
          emit_u32 b.height_cells (
            emit_u8 (material_discriminant b.material) (
              emit_u32 b.health
                (emit_u32 b.max_health (emit_u8 (erosion_axis_discriminant b.erosion_axis) r))))))))

unfoldable pub emit_turn : SimulationState → List ℕ → List ℕ
emit_turn s r = emit_i32 s.wind_per_tick (
    emit_i32 s.movement_remaining (
      emit_bool s.has_attacked_this_turn (
        emit_u32 s.next_terrain_sequence (
          emit_u32 s.next_object_sequence (
            emit_u64 s.rng_state (
              emit_u8 (turn_end_reason_discriminant s.pending_turn_end_reason)
                (emit_u8 (turn_end_reason_discriminant s.last_turn_end_reason) r)))))))

unfoldable pub emit_metadata : SimulationState → List ℕ → List ℕ
emit_metadata s r = emit_separator metadata_domain (
    emit_u32 s.simulation_version (
      emit_u32 s.content_version (
        emit_u64 s.tick (
          emit_u32 s.turn_number (
            emit_u8 (match_phase_discriminant s.phase)
              (emit_str s.active_player_id (emit_turn s r)))))))

unfoldable pub emit_state : SimulationState → List ℕ → List ℕ
emit_state s r = emit_metadata s (
    emit_separator players_domain (
      emit_slice emit_player (sorted_players s.players) (
        emit_separator objects_domain_tag (
          emit_slice emit_object (sorted_objects s.objects) (
            emit_separator blocks_domain_tag (
              emit_slice emit_block (sorted_blocks s.blocks) (
                emit_terrain s.terrain (
                  emit_separator commands_domain
                    (emit_slice emit_str (sorted_command_ids s.processed_command_ids) r)))))))))
