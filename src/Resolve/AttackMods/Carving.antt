-- ===== src/Resolve/AttackMods/Carving.antt =====
-- crates/db-sim-core/src/resolve/attack_mods.rs: the submunitions of a cluster and the bore of a tunnel.
use dungeon_barrage.Base.{
  ℕ, zero, suc, ◌+◌, ◌*◌, ◌/◌, ◌%◌, ◌-◌, ◌^◌, Bool, true, false, List, [], ◌∷◌, ◌++◌, filter,
  Option, none, some, if◌then◌else◌, ◌==◌, min, ℤ, pos, negsuc, pos_part, ◌+ℤ◌, ◌*ℤ◌, leb_ℤ,
  sat_i32, i64_max, Text, text, text_eq, text_lt,
}
use dungeon_barrage.Fixed.{
  FixedPoint, position_scale, body_width, to_cells, from_cells, within_radius, distance_squared,
}
use dungeon_barrage.Error.{SimResult, ok, err, overflow}
use dungeon_barrage.Types.Ability.{SpecialEffect}
use dungeon_barrage.Types.Terrain.{
  TerrainMask, Material, reinforced_stone, TerrainShape, subtract_circle, subtract_capsule,
  TerrainOperation, soft_materials,
}
use dungeon_barrage.Types.State.{SimulationState, player}
use dungeon_barrage.Terrain.{material_at}
use dungeon_barrage.BlockOps.Operation.{apply_operation}
use dungeon_barrage.Resolve.{ResolveContext, living_opponent_ids, next_terrain_sequence}
use dungeon_barrage.Resolve.Support.{percent_to_hp}
use dungeon_barrage.Resolve.AttackMods.Hits.{deal_damage}

-- An operation of a shape: it is numbered, applied and recorded.
unfoldable pub carve : ResolveContext → TerrainShape → ResolveContext
unfolding next_terrain_sequence
carve ctx shape =
    let (sequence, numbered) = next_terrain_sequence ctx in
    let op : TerrainOperation = record {
      sequence = sequence;
      shape = shape;
      material_mask = soft_materials;
    } in
    let (s, removed) = apply_operation numbered.state op in
    record numbered {
      state = s;
      terrain_cells_removed = min (numbered.terrain_cells_removed + removed) (2 ^ 32 - 1);
      terrain_ops = numbered.terrain_ops ++ op ∷ [];
    }

-- A map from names to raw damage, in the order of the names.
unfoldable pub add_raw : Text → ℕ → List (Text × ℕ) → List (Text × ℕ)
unfolding text_eq text_lt
add_raw id n [] = (id, n) ∷ []
add_raw id n ((key, raw) ∷ rest) =
    let more = add_raw id n rest in
    if text_eq key id
    then (key, min (raw + n) (2 ^ 32 - 1)) ∷ rest
    else if text_lt id key
    then (id, n) ∷ (key, raw) ∷ rest
    else (key, raw) ∷ more

-- The raw damage of each name, up to a cap.
unfoldable pub deal_capped : ResolveContext → ℕ → List (Text × ℕ) → ResolveContext
unfolding deal_damage
deal_capped ctx cap_hp [] = ctx
deal_capped ctx cap_hp ((id, raw) ∷ rest) =
    deal_capped (deal_damage ctx id (min raw cap_hp) false).0 cap_hp rest

unfoldable pub cluster_spread_direction : ℕ → ℤ × ℤ
cluster_spread_direction i =
    if i == 0
    then (pos 1, pos 0)
    else if i == 1
    then (pos 1, pos 1)
    else if i == 2
    then (pos 0, pos 1)
    else if i == 3
    then (negsuc 0, pos 1)
    else if i == 4
    then (negsuc 0, pos 0)
    else if i == 5
    then (negsuc 0, negsuc 0)
    else if i == 6
    then (pos 0, negsuc 0)
    else (pos 1, negsuc 0)

unfoldable pub cluster_submunition_landing : FixedPoint → ℕ → FixedPoint
unfolding cluster_spread_direction sat_i32 ◌+ℤ◌ ◌*ℤ◌
cluster_submunition_landing impact index =
    let (dx, dy) = cluster_spread_direction (index % 8) in
    let ring_scale = sat_i32 (pos (min (index / 8) (2 ^ 31 - 1) + 1)) in
    let step = sat_i32 (pos (2 * position_scale) *ℤ ring_scale) in
    record {
      x = sat_i32 (impact.x +ℤ sat_i32 (dx *ℤ step));
      y = sat_i32 (impact.y +ℤ sat_i32 (dy *ℤ step));
    }

-- `min_by_key`: the first of the least.
unfoldable pub min_by_key : (Text → ℤ) → List Text → Option Text
min_by_key key [] = none
min_by_key key (id ∷ ids) = elim (min_by_key key ids) [
  | none ↦ some id
  | some other_id ↦ if leb_ℤ (key id) (key other_id) then some id else some other_id
]

unfoldable pub is_near : SimulationState → FixedPoint → Text → Bool
unfolding player within_radius
is_near s point id = elim (player s id) [
  | none ↦ false
  | some p ↦ within_radius p.position point (pos body_width)
]

unfoldable pub distance_to : SimulationState → FixedPoint → Text → ℤ
unfolding player distance_squared
distance_to s point id = elim (player s id) [
  | none ↦ i64_max
  | some p ↦ distance_squared p.position point
]

unfoldable pub nearest_living_target : SimulationState → List Text → FixedPoint → Option Text
unfolding is_near distance_to min_by_key
nearest_living_target s ids point = min_by_key (distance_to s point) (filter (is_near s point) ids)

-- One submunition, by its index: its crater, and the raw damage that it adds.
unfoldable pub drop_submunition :
    List Text
    → FixedPoint
    → ℕ
    → ResolveContext × List (Text × ℕ)
    → ℕ
    → ResolveContext × List (Text × ℕ)
unfolding cluster_submunition_landing carve nearest_living_target add_raw
drop_submunition opponents impact hp (ctx, raw) index =
    let landing = cluster_submunition_landing impact index in
    let carved = carve ctx (subtract_circle landing 3) in
    elim (nearest_living_target carved.state opponents landing) [
      | none ↦ (carved, raw)
      | some id ↦ (carved, add_raw id hp raw)
    ]

unfoldable pub drop_submunitions :
    ℕ
    → List Text
    → FixedPoint
    → ℕ
    → ResolveContext × List (Text × ℕ)
    → ℕ
    → ResolveContext × List (Text × ℕ)
unfolding drop_submunition
drop_submunitions zero opponents impact hp acc index = acc
drop_submunitions (suc n) opponents impact hp acc index =
    drop_submunitions n opponents impact hp (drop_submunition opponents impact hp acc index)
      (index + 1)

unfoldable pub resolve_cluster : ResolveContext → SpecialEffect → SimResult ResolveContext
unfolding drop_submunitions deal_capped percent_to_hp living_opponent_ids
resolve_cluster ctx effect =
    let hp = percent_to_hp effect.magnitude_secondary in
    let (carved, raw) =
      drop_submunitions (pos_part effect.magnitude) (living_opponent_ids ctx) ctx.impact_point hp
        (ctx, []) 0 in
    ok (deal_capped carved (percent_to_hp (pos effect.duration_turns)) raw)

unfoldable pub is_reinforced : Material → Bool
is_reinforced reinforced_stone = true
is_reinforced _ = false

-- The column that a bore of so many cells reaches, to the right, before reinforced stone.
unfoldable pub bore_stop : ℕ → TerrainMask → ℤ → ℤ → ℤ
unfolding material_at is_reinforced sat_i32 ◌+ℤ◌
bore_stop zero mask x y = x
bore_stop (suc n) mask x y =
    let next = sat_i32 (x +ℤ pos 1) in
    let rest = bore_stop n mask next y in
    if is_reinforced (material_at mask next y) then x else rest

unfoldable pub resolve_tunnel : ResolveContext → SpecialEffect → SimResult ResolveContext
unfolding to_cells bore_stop from_cells carve deal_damage percent_to_hp
resolve_tunnel ctx effect =
    let (start_x, start_y) = to_cells ctx.impact_point in
    let stop_x = bore_stop (min (pos_part effect.magnitude) 64) ctx.state.terrain start_x start_y in
    elim (from_cells stop_x start_y) [
      | none ↦ err (overflow (text "tunnel.stop_point"))
      | some stop_point ↦
          let bored = carve ctx (subtract_capsule ctx.impact_point stop_point 1) in
          let blasted = carve bored (subtract_circle stop_point 2) in
          elim ctx.primary_target_id [
            | none ↦ ok blasted
            | some id ↦
                ok (deal_damage blasted id (percent_to_hp effect.magnitude_secondary) false).0
          ]
    ]
