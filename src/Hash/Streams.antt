-- ===== src/Hash/Streams.antt =====
-- The writers of crates/db-sim-core/src/hash.rs stream the layout of Hash/Emit.
use dungeon_barrage.Base.{ℕ, ◌≡◌, refl, sym, ap, ◌∙◌, List, []}
use dungeon_barrage.Fixed.{FixedPoint}
use dungeon_barrage.Types.Terrain.{TerrainMask, TerrainBlock}
use dungeon_barrage.Types.Player.{AmmoCounter, StatusEffect, PersistentObject, PlayerState}
use dungeon_barrage.Types.State.{SimulationState}
use dungeon_barrage.Canonical.{
  CanonicalHasher, write_raw, write_str, new, hash_canonical, finish_hex,
  canonical_encoding_version, fnv_offset_basis,
}
use dungeon_barrage.Canonical.Bytes.{
  emit_u32, emit_str, streams_u8, streams_u32, streams_i32, streams_u64, streams_bool, streams_str,
  streams_bytes, streams_separator, streams_slice,
}
use dungeon_barrage.Hash.{
  write_point, write_terrain, write_status, write_object, write_ammo, write_player, write_block,
  write_metadata, write_state, hash_state,
}
use dungeon_barrage.Hash.Emit.{
  emit_point, emit_terrain, emit_status, emit_object, emit_ammo, emit_gear, emit_player, emit_block,
  emit_turn, emit_metadata, emit_state,
}

streams_point :
    (p : FixedPoint) (r : List ℕ) (h : CanonicalHasher)
    → write_raw (emit_point p r) h ≡ write_raw r (write_point p h)
unfolding emit_point write_point
streams_point p r h = rw (streams_i32, streams_i32) refl

streams_status :
    (s : StatusEffect) (r : List ℕ) (h : CanonicalHasher)
    → write_raw (emit_status s r) h ≡ write_raw r (write_status s h)
unfolding emit_status write_status
streams_status s r h = rw (streams_u8, streams_i32, streams_u8) refl

streams_object :
    (o : PersistentObject) (r : List ℕ) (h : CanonicalHasher)
    → write_raw (emit_object o r) h ≡ write_raw r (write_object o h)
unfolding emit_object write_object
streams_object o r h =
    rw (streams_u32, streams_str, streams_u8, streams_point, streams_u32, streams_u8) refl

streams_terrain :
    (t : TerrainMask) (r : List ℕ) (h : CanonicalHasher)
    → write_raw (emit_terrain t r) h ≡ write_raw r (write_terrain t h)
unfolding emit_terrain write_terrain
streams_terrain t r h = rw (streams_separator, streams_u32, streams_u32, streams_bytes) refl

streams_ammo :
    (a : AmmoCounter) (r : List ℕ) (h : CanonicalHasher)
    → write_raw (emit_ammo a r) h ≡ write_raw r (write_ammo a h)
unfolding emit_ammo write_ammo
streams_ammo a r h = rw (streams_u8, streams_u32, streams_u32) refl

streams_player :
    (p : PlayerState) (r : List ℕ) (h : CanonicalHasher)
    → write_raw (emit_player p r) h ≡ write_raw r (write_player p h)
unfolding emit_player emit_gear write_player
streams_player p r h =
    rw
      (
        streams_str,
        streams_u8,
        streams_u32,
        streams_u32,
        streams_point,
        streams_str,
        streams_str,
        streams_str,
        streams_str,
        streams_u32,
        streams_ammo,
        streams_ammo,
        streams_ammo,
        streams_slice emit_status write_status streams_status,
      )
      refl

streams_block :
    (b : TerrainBlock) (r : List ℕ) (h : CanonicalHasher)
    → write_raw (emit_block b r) h ≡ write_raw r (write_block b h)
unfolding emit_block write_block
streams_block b r h =
    rw
      (
        streams_u32, streams_i32, streams_i32, streams_u32, streams_u32, streams_u8, streams_u32,
        streams_u32, streams_u8,
      )
      refl

streams_metadata :
    (s : SimulationState) (r : List ℕ) (h : CanonicalHasher)
    → write_raw (emit_metadata s r) h ≡ write_raw r (write_metadata s h)
unfolding emit_metadata emit_turn write_metadata
streams_metadata s r h =
    rw
      (
        streams_separator, streams_u32, streams_u32, streams_u64, streams_u32, streams_u8,
        streams_str, streams_i32, streams_i32, streams_bool, streams_u32, streams_u32, streams_u64,
        streams_u8, streams_u8,
      )
      refl

-- The writer of the match state refines the layout that Hash/Emit writes out: from any hasher and before
-- any rest it folds exactly the bytes of the layout, one by one.
pub streams_state :
    (s : SimulationState) (r : List ℕ) (h : CanonicalHasher)
    → write_raw (emit_state s r) h ≡ write_raw r (write_state s h)
unfolding emit_state write_state
streams_state s r h =
    rw
      (
        streams_metadata,
        streams_separator,
        streams_slice emit_player write_player streams_player,
        streams_separator,
        streams_slice emit_object write_object streams_object,
        streams_separator,
        streams_slice emit_block write_block streams_block,
        streams_terrain,
        streams_separator,
        streams_slice emit_str write_str streams_str,
      )
      refl

write_raw-empty : (h : CanonicalHasher) → write_raw [] h ≡ h
unfolding write_raw
write_raw-empty h = refl

hasher_of :
    (s : SimulationState)
    → write_raw
        (emit_u32 canonical_encoding_version (emit_state s []))
        (record { state = fnv_offset_basis })
      ≡ write_state s new
unfolding new
hasher_of s =
    streams_u32 canonical_encoding_version (emit_state s []) (record { state = fnv_offset_basis })
    ∙ streams_state s [] new
    ∙ write_raw-empty (write_state s new)

-- The hash of a match state is the digest of one run of FNV-1a over the encoding version and the bytes
-- of the layout of Hash/Emit.
pub hash_state_lem :
    (s : SimulationState)
    → hash_state s
      ≡ finish_hex (
          write_raw
            (emit_u32 canonical_encoding_version (emit_state s []))
            (record { state = fnv_offset_basis }))
unfolding hash_state hash_canonical
hash_state_lem s = ap finish_hex (sym (hasher_of s))
