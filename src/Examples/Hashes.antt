-- ===== src/Examples/Hashes.antt =====
-- The hash of a match state at concrete inputs.
use mathlib.Core.List.{Permᴰ}
use dungeon_barrage.Base.{
  ℕ, ◌≡◌, ◌↔◌, refl, inl, List, [], ◌∷◌, All, length, arith, text, text_lt, sort_by,
}
use dungeon_barrage.Types.Ability.{kind_rank, slot_index}
use dungeon_barrage.Types.Player.{Appearance, ammo_for}
use dungeon_barrage.Roster.{derived_loadout}
use dungeon_barrage.Canonical.{CanonicalHasher, fnv_offset_basis, write_raw, finish_hex}
use dungeon_barrage.Canonical.Hex.{IsHexDigit, finish_hex_iff}
use dungeon_barrage.Hash.{
  hash_state, write_state, sorted_players, sorted_objects, sorted_blocks, sorted_command_ids,
  sorted_statuses,
}
use dungeon_barrage.Hash.Emit.{emit_state}
use dungeon_barrage.Hash.Streams.{streams_state}
use dungeon_barrage.Hash.Unique.{IsObject}
use dungeon_barrage.Hash.Identity.{IsPlayer, IsMetadata, IsWireState, SameMatch, emit_state_unique}
use dungeon_barrage.Hash.Order.{IsKeyed, rearranged, hash_state-rearranged}
use dungeon_barrage.Examples.Duel.{alice, bob, duel, turret_of}

abbrev basis : CanonicalHasher
basis = record { state = fnv_offset_basis }

streams_state_example : write_raw (emit_state duel []) basis ≡ write_raw [] (write_state duel basis)
streams_state_example = streams_state duel [] basis

finish_hex_iff_example :
    (length (finish_hex basis) ≡ 16)
    × All IsHexDigit (finish_hex basis)
    × ((finish_hex basis ≡ finish_hex (record { state = 0 })) ↔ (basis ≡ record { state = 0 }))
finish_hex_iff_example = finish_hex_iff basis (record { state = 0 }) (omega arith) (omega arith)

duel-IsKeyed : IsKeyed duel
unfolding text_lt
duel-IsKeyed = record {
  players = ((inl refl, tt), (tt, tt));
  objects = ((inl refl, tt), (tt, tt));
  blocks = tt;
  commands = tt;
}

undressed : Appearance → Appearance
undressed look = record look { skin_id = text "plain" }

hash_state-rearranged_example :
    hash_state (rearranged duel undressed (bob ∷ alice ∷ []) duel.objects [] []) ≡ hash_state duel
hash_state-rearranged_example =
    hash_state-rearranged duel undressed duel-IsKeyed (Permᴰ.swap refl refl)
      (Permᴰ.cons refl (Permᴰ.cons refl Permᴰ.nil)) Permᴰ.nil Permᴰ.nil

alice-IsPlayer : IsPlayer alice
unfolding ammo_for slot_index sorted_statuses sort_by kind_rank derived_loadout
alice-IsPlayer = record {
  id = omega arith;
  health = omega arith;
  max_health = omega arith;
  position = (omega arith, omega arith);
  loadout = (omega arith, omega arith, omega arith, omega arith);
  trinket_charge = omega arith;
  basic_ammo = (omega arith, omega arith);
  basic_alt_ammo = (omega arith, omega arith);
  special_ammo = (omega arith, omega arith);
  few_statuses = omega arith;
  statuses = (omega arith, (omega arith, tt));
}

bob-IsPlayer : IsPlayer bob
unfolding ammo_for slot_index sorted_statuses sort_by derived_loadout
bob-IsPlayer = record {
  id = omega arith;
  health = omega arith;
  max_health = omega arith;
  position = (omega arith, omega arith);
  loadout = (omega arith, omega arith, omega arith, omega arith);
  trinket_charge = omega arith;
  basic_ammo = (omega arith, omega arith);
  basic_alt_ammo = (omega arith, omega arith);
  special_ammo = (omega arith, omega arith);
  few_statuses = omega arith;
  statuses = tt;
}

turret-IsObject : IsObject (turret_of 0 (text "alice")) × IsObject (turret_of 1 (text "bob"))
turret-IsObject = (
  record {
    sequence = omega arith;
    owner = omega arith;
    position = (omega arith, omega arith);
    health = omega arith;
  },
  record {
    sequence = omega arith;
    owner = omega arith;
    position = (omega arith, omega arith);
    health = omega arith;
  },
)

duel-IsMetadata : IsMetadata duel
duel-IsMetadata = record {
  simulation_version = omega arith;
  content_version = omega arith;
  tick = omega arith;
  turn_number = omega arith;
  active_player_id = omega arith;
  wind_per_tick = omega arith;
  movement_remaining = omega arith;
  next_terrain_sequence = omega arith;
  next_object_sequence = omega arith;
  rng_state = omega arith;
}

duel-IsWireState : IsWireState duel
unfolding sorted_players sorted_objects sorted_blocks sorted_command_ids sort_by text_lt
duel-IsWireState = record {
  metadata = duel-IsMetadata;
  few_players = omega arith;
  players = (alice-IsPlayer, (bob-IsPlayer, tt));
  few_objects = omega arith;
  objects = (turret-IsObject.0, (turret-IsObject.1, tt));
  few_blocks = omega arith;
  blocks = tt;
  terrain = record { width = omega arith; height = omega arith; cells = omega arith };
  few_commands = omega arith;
  commands = tt;
}

abbrev other_bytes : List ℕ
other_bytes = 255 ∷ 1 ∷ []

emit_state_unique_example : SameMatch duel duel × (other_bytes ≡ other_bytes)
emit_state_unique_example =
    emit_state_unique duel duel other_bytes other_bytes duel-IsWireState duel-IsWireState refl
