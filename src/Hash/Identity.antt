-- ===== src/Hash/Identity.antt =====
-- Players and whole states of crates/db-sim-core/src/hash.rs: what equal bytes say of them.
use dungeon_barrage.Base.{AllAgree, ℕ, ◌^◌, ◌<◌, ◌≡◌, refl, List, [], ◌∷◌, All, IsI32, arith}
use dungeon_barrage.Types.Ability.{basic, basic_alt, special}
use dungeon_barrage.Types.Player.{AmmoCounter, ammo_for, Loadout, PlayerState}
use dungeon_barrage.Types.State.{SimulationState}
use dungeon_barrage.Canonical.Bytes.{
  emit_str, unique_u8, unique_u32, unique_i32, unique_u64, unique_bool, unique_str,
  unique_separator, unique_slice, IsShort,
}
use dungeon_barrage.Hash.{
  turn_end_reason_discriminant, ammo_policy_discriminant, match_phase_discriminant, sorted_statuses,
  sorted_players, sorted_objects, sorted_blocks, sorted_command_ids,
}
use dungeon_barrage.Hash.Emit.{
  emit_status, emit_object, emit_ammo, emit_gear, emit_player, emit_block, emit_turn, emit_metadata,
  emit_state,
}
use dungeon_barrage.Hash.Unique.{
  IsPoint, IsStatus, IsTerrain, IsObject, IsWireBlock, ammo_policy-inj, match_phase-inj,
  turn_end_reason-inj, unique_point, unique_status, unique_terrain, unique_object, unique_block,
}

AllAgree-eq : {A : Type 0} (xs ys : List A) → AllAgree ◌≡◌ xs ys → xs ≡ ys
AllAgree-eq [] [] h = refl
AllAgree-eq [] (y ∷ ys) h = absurd h
AllAgree-eq (x ∷ xs) [] h = absurd h
AllAgree-eq (x ∷ xs) (y ∷ ys) h = cc (h.0, AllAgree-eq xs ys h.1)

abbrev pub IsAmmo : AmmoCounter → Type 0
IsAmmo a = (a.remaining < 2 ^ 16) × (a.maximum < 2 ^ 16)

unique_ammo :
    (a b : AmmoCounter) (r s : List ℕ)
    → IsAmmo a
    → IsAmmo b
    → emit_ammo a r ≡ emit_ammo b s
    → (a ≡ b) × (r ≡ s)
unfolding emit_ammo
unique_ammo a b r s v w e0 =
    let (p, e1) =
      unique_u8 (ammo_policy_discriminant a.policy) (ammo_policy_discriminant b.policy) _ _ e0 in
    let (x, e2) =
      unique_u32 a.remaining b.remaining _ _ (omega (arith, v.0)) (omega (arith, w.0)) e1 in
    let (y, e3) = unique_u32 a.maximum b.maximum _ _ (omega (arith, v.1)) (omega (arith, w.1)) e2 in
    (same (ammo_policy-inj a.policy b.policy p) x y, e3)
  where
    same : a.policy ≡ b.policy → a.remaining ≡ b.remaining → a.maximum ≡ b.maximum → a ≡ b
    same p x y = cc (p, x, y)

abbrev IsLoadout : Loadout → Type 0
IsLoadout l = IsShort l.main × IsShort l.secondary × IsShort l.melee_tool × IsShort l.trinket

-- What the machine types of the source allow.
pub record IsPlayer (p : PlayerState) : Type 0 where
  pub id : IsShort p.id
  pub health : p.health < 2 ^ 16
  pub max_health : p.max_health < 2 ^ 16
  pub position : IsPoint p.position
  pub loadout : IsLoadout p.loadout
  pub trinket_charge : p.trinket_charge < 2 ^ 16
  pub basic_ammo : IsAmmo (ammo_for p basic)
  pub basic_alt_ammo : IsAmmo (ammo_for p basic_alt)
  pub special_ammo : IsAmmo (ammo_for p special)
  pub few_statuses : IsShort (sorted_statuses p.statuses)
  pub statuses : All IsStatus (sorted_statuses p.statuses)

-- The same gear: items, charge, counters, and statuses in the order of their kinds.
pub record SameGear (p q : PlayerState) : Type 0 where
  pub loadout : p.loadout ≡ q.loadout
  pub trinket_charge : p.trinket_charge ≡ q.trinket_charge
  pub basic_ammo : ammo_for p basic ≡ ammo_for q basic
  pub basic_alt_ammo : ammo_for p basic_alt ≡ ammo_for q basic_alt
  pub special_ammo : ammo_for p special ≡ ammo_for q special
  pub statuses : sorted_statuses p.statuses ≡ sorted_statuses q.statuses

-- The same player, but for the looks.
pub record SamePlayer (p q : PlayerState) : Type 0 where
  pub id : p.id ≡ q.id
  pub team : p.team ≡ q.team
  pub health : p.health ≡ q.health
  pub max_health : p.max_health ≡ q.max_health
  pub position : p.position ≡ q.position
  pub gear : SameGear p q

unique_gear :
    (p q : PlayerState) (r s : List ℕ)
    → IsPlayer p
    → IsPlayer q
    → emit_gear p r ≡ emit_gear q s
    → SameGear p q × (r ≡ s)
unfolding emit_gear
unique_gear p q r s v w e0 =
    let (i, e1) = unique_str p.loadout.main q.loadout.main _ _ v.loadout.0 w.loadout.0 e0 in
    let (j, e2) =
      unique_str p.loadout.secondary q.loadout.secondary _ _ v.loadout.1 w.loadout.1 e1 in
    let (k, e3) =
      unique_str p.loadout.melee_tool q.loadout.melee_tool _ _ v.loadout.2 w.loadout.2 e2 in
    let (l, e4) = unique_str p.loadout.trinket q.loadout.trinket _ _ v.loadout.3 w.loadout.3 e3 in
    let (c, e5) =
      unique_u32 p.trinket_charge q.trinket_charge _ _ (omega (arith, v.trinket_charge))
        (omega (arith, w.trinket_charge)) e4 in
    let (x, e6) =
      unique_ammo (ammo_for p basic) (ammo_for q basic) _ _ v.basic_ammo w.basic_ammo e5 in
    let (y, e7) =
      unique_ammo (ammo_for p basic_alt) (ammo_for q basic_alt) _ _ v.basic_alt_ammo
        w.basic_alt_ammo e6 in
    let (z, e8) =
      unique_ammo (ammo_for p special) (ammo_for q special) _ _ v.special_ammo w.special_ammo e7 in
    let (t, e9) =
      unique_slice emit_status IsStatus ◌≡◌ (λ a b r s v w e. unique_status a b r s v w e)
        (sorted_statuses p.statuses) (sorted_statuses q.statuses) r s v.few_statuses w.few_statuses
        v.statuses w.statuses e8 in
    (
      record {
        loadout = same i j k l;
        trinket_charge = c;
        basic_ammo = x;
        basic_alt_ammo = y;
        special_ammo = z;
        statuses = AllAgree-eq (sorted_statuses p.statuses) (sorted_statuses q.statuses) t;
      },
      e9,
    )
  where
    same :
        p.loadout.main ≡ q.loadout.main
        → p.loadout.secondary ≡ q.loadout.secondary
        → p.loadout.melee_tool ≡ q.loadout.melee_tool
        → p.loadout.trinket ≡ q.loadout.trinket
        → p.loadout ≡ q.loadout
    same i j k l = cc (i, j, k, l)

unique_player :
    (p q : PlayerState) (r s : List ℕ)
    → IsPlayer p
    → IsPlayer q
    → emit_player p r ≡ emit_player q s
    → SamePlayer p q × (r ≡ s)
unfolding emit_player
unique_player p q r s v w e0 =
    let (i, e1) = unique_str p.id q.id _ _ v.id w.id e0 in
    let (t, e2) = unique_u8 p.team q.team _ _ e1 in
    let (h, e3) =
      unique_u32 p.health q.health _ _ (omega (arith, v.health)) (omega (arith, w.health)) e2 in
    let (m, e4) =
      unique_u32 p.max_health q.max_health _ _ (omega (arith, v.max_health))
        (omega (arith, w.max_health)) e3 in
    let (x, e5) = unique_point p.position q.position _ _ v.position w.position e4 in
    let (g, e6) = unique_gear p q r s v w e5 in
    (record { id = i; team = t; health = h; max_health = m; position = x; gear = g }, e6)

-- What the machine types of the source allow, before the collections.
pub record IsMetadata (s : SimulationState) : Type 0 where
  pub simulation_version : s.simulation_version < 2 ^ 32
  pub content_version : s.content_version < 2 ^ 32
  pub tick : s.tick < 2 ^ 64
  pub turn_number : s.turn_number < 2 ^ 32
  pub active_player_id : IsShort s.active_player_id
  pub wind_per_tick : IsI32 s.wind_per_tick
  pub movement_remaining : IsI32 s.movement_remaining
  pub next_terrain_sequence : s.next_terrain_sequence < 2 ^ 32
  pub next_object_sequence : s.next_object_sequence < 2 ^ 32
  pub rng_state : s.rng_state < 2 ^ 64

pub record SameTurn (s t : SimulationState) : Type 0 where
  pub wind_per_tick : s.wind_per_tick ≡ t.wind_per_tick
  pub movement_remaining : s.movement_remaining ≡ t.movement_remaining
  pub has_attacked_this_turn : s.has_attacked_this_turn ≡ t.has_attacked_this_turn
  pub next_terrain_sequence : s.next_terrain_sequence ≡ t.next_terrain_sequence
  pub next_object_sequence : s.next_object_sequence ≡ t.next_object_sequence
  pub rng_state : s.rng_state ≡ t.rng_state
  pub pending_turn_end_reason : s.pending_turn_end_reason ≡ t.pending_turn_end_reason
  pub last_turn_end_reason : s.last_turn_end_reason ≡ t.last_turn_end_reason

pub record SameMetadata (s t : SimulationState) : Type 0 where
  pub simulation_version : s.simulation_version ≡ t.simulation_version
  pub content_version : s.content_version ≡ t.content_version
  pub tick : s.tick ≡ t.tick
  pub turn_number : s.turn_number ≡ t.turn_number
  pub phase : s.phase ≡ t.phase
  pub active_player_id : s.active_player_id ≡ t.active_player_id
  pub turn : SameTurn s t

unique_turn :
    (s t : SimulationState) (r u : List ℕ)
    → IsMetadata s
    → IsMetadata t
    → emit_turn s r ≡ emit_turn t u
    → SameTurn s t × (r ≡ u)
unfolding emit_turn
unique_turn s t r u v w e0 =
    let (a, e1) =
      unique_i32 s.wind_per_tick t.wind_per_tick _ _ v.wind_per_tick w.wind_per_tick e0 in
    let (b, e2) =
      unique_i32 s.movement_remaining t.movement_remaining _ _ v.movement_remaining
        w.movement_remaining e1 in
    let (c, e3) = unique_bool s.has_attacked_this_turn t.has_attacked_this_turn _ _ e2 in
    let (d, e4) =
      unique_u32 s.next_terrain_sequence t.next_terrain_sequence _ _ v.next_terrain_sequence
        w.next_terrain_sequence e3 in
    let (e, e5) =
      unique_u32 s.next_object_sequence t.next_object_sequence _ _ v.next_object_sequence
        w.next_object_sequence e4 in
    let (f, e6) = unique_u64 s.rng_state t.rng_state _ _ v.rng_state w.rng_state e5 in
    let (g, e7) =
      unique_u8 (turn_end_reason_discriminant s.pending_turn_end_reason)
        (turn_end_reason_discriminant t.pending_turn_end_reason) _ _ e6 in
    let (h, e8) =
      unique_u8 (turn_end_reason_discriminant s.last_turn_end_reason)
        (turn_end_reason_discriminant t.last_turn_end_reason) _ _ e7 in
    (
      record {
        wind_per_tick = a;
        movement_remaining = b;
        has_attacked_this_turn = c;
        next_terrain_sequence = d;
        next_object_sequence = e;
        rng_state = f;
        pending_turn_end_reason =
            turn_end_reason-inj s.pending_turn_end_reason t.pending_turn_end_reason g;
        last_turn_end_reason = turn_end_reason-inj s.last_turn_end_reason t.last_turn_end_reason h;
      },
      e8,
    )

unique_metadata :
    (s t : SimulationState) (r u : List ℕ)
    → IsMetadata s
    → IsMetadata t
    → emit_metadata s r ≡ emit_metadata t u
    → SameMetadata s t × (r ≡ u)
unfolding emit_metadata
unique_metadata s t r u v w e =
    let (_, e0) = unique_separator _ _ _ _ e in
    let (a, e1) =
      unique_u32 s.simulation_version t.simulation_version _ _ v.simulation_version
        w.simulation_version e0 in
    let (b, e2) =
      unique_u32 s.content_version t.content_version _ _ v.content_version w.content_version e1 in
    let (c, e3) = unique_u64 s.tick t.tick _ _ v.tick w.tick e2 in
    let (d, e4) = unique_u32 s.turn_number t.turn_number _ _ v.turn_number w.turn_number e3 in
    let (p, e5) =
      unique_u8 (match_phase_discriminant s.phase) (match_phase_discriminant t.phase) _ _ e4 in
    let (i, e6) =
      unique_str s.active_player_id t.active_player_id _ _ v.active_player_id w.active_player_id
        e5 in
    let (f, e7) = unique_turn s t r u v w e6 in
    (
      record {
        simulation_version = a;
        content_version = b;
        tick = c;
        turn_number = d;
        phase = match_phase-inj s.phase t.phase p;
        active_player_id = i;
        turn = f;
      },
      e7,
    )

-- A state that the machine types of the source allow, its collections in their stated order.
pub record IsWireState (s : SimulationState) : Type 0 where
  pub metadata : IsMetadata s
  pub few_players : IsShort (sorted_players s.players)
  pub players : All IsPlayer (sorted_players s.players)
  pub few_objects : IsShort (sorted_objects s.objects)
  pub objects : All IsObject (sorted_objects s.objects)
  pub few_blocks : IsShort (sorted_blocks s.blocks)
  pub blocks : All IsWireBlock (sorted_blocks s.blocks)
  pub terrain : IsTerrain s.terrain
  pub few_commands : IsShort (sorted_command_ids s.processed_command_ids)
  pub commands : All IsShort (sorted_command_ids s.processed_command_ids)

-- The same match, but for the looks of the players and the order of the collections.
pub record SameMatch (s t : SimulationState) : Type 0 where
  pub metadata : SameMetadata s t
  pub players : AllAgree SamePlayer (sorted_players s.players) (sorted_players t.players)
  pub objects : sorted_objects s.objects ≡ sorted_objects t.objects
  pub blocks : sorted_blocks s.blocks ≡ sorted_blocks t.blocks
  pub terrain : s.terrain ≡ t.terrain
  pub commands :
      sorted_command_ids s.processed_command_ids ≡ sorted_command_ids t.processed_command_ids

-- Two states within the bounds of the machine types have the same canonical bytes, before whatever
-- rest, only if they are the same match: every field of the game agrees, the collections in their
-- stated order, and the rests are the same as well.
pub emit_state_unique :
    (s t : SimulationState) (r u : List ℕ)
    → IsWireState s
    → IsWireState t
    → emit_state s r ≡ emit_state t u
    → SameMatch s t × (r ≡ u)
unfolding emit_state
emit_state_unique s t r u v w e0 =
    let (m, e1) = unique_metadata s t _ _ v.metadata w.metadata e0 in
    let (_, e2) = unique_separator _ _ _ _ e1 in
    let (p, e3) =
      unique_slice emit_player IsPlayer SamePlayer unique_player (sorted_players s.players)
        (sorted_players t.players) _ _ v.few_players w.few_players v.players w.players e2 in
    let (_, e4) = unique_separator _ _ _ _ e3 in
    let (o, e5) =
      unique_slice emit_object IsObject ◌≡◌ unique_object (sorted_objects s.objects)
        (sorted_objects t.objects) _ _ v.few_objects w.few_objects v.objects w.objects e4 in
    let (_, e6) = unique_separator _ _ _ _ e5 in
    let (b, e7) =
      unique_slice emit_block IsWireBlock ◌≡◌ unique_block (sorted_blocks s.blocks)
        (sorted_blocks t.blocks) _ _ v.few_blocks w.few_blocks v.blocks w.blocks e6 in
    let (g, e8) = unique_terrain s.terrain t.terrain _ _ v.terrain w.terrain e7 in
    let (_, e9) = unique_separator _ _ _ _ e8 in
    let (c, rest) =
      unique_slice emit_str IsShort ◌≡◌ unique_str (sorted_command_ids s.processed_command_ids)
        (sorted_command_ids t.processed_command_ids) r u v.few_commands w.few_commands v.commands
        w.commands e9 in
    (
      record {
        metadata = m;
        players = p;
        objects = AllAgree-eq (sorted_objects s.objects) (sorted_objects t.objects) o;
        blocks = AllAgree-eq (sorted_blocks s.blocks) (sorted_blocks t.blocks) b;
        terrain = g;
        commands =
            AllAgree-eq (sorted_command_ids s.processed_command_ids)
              (sorted_command_ids t.processed_command_ids) c;
      },
      rest,
    )
