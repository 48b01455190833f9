-- ===== src/Hash/Unique.antt =====
-- The layout of crates/db-sim-core/src/hash.rs is unambiguous: equal bytes come from states that agree
-- in every field of the game.
use dungeon_barrage.Base.{ℕ, ◌^◌, ◌<◌, ◌≡◌, List, IsI32, arith}
use dungeon_barrage.Fixed.{FixedPoint}
use dungeon_barrage.Types.Ability.{EffectKind}
use dungeon_barrage.Types.Terrain.{TerrainMask, TerrainBlock, Material, ErosionAxis}
use dungeon_barrage.Types.Player.{AmmoPolicy, StatusEffect, PersistentObject, PersistentObjectKind}
use dungeon_barrage.Types.State.{MatchPhase, TurnEndReason}
use dungeon_barrage.Canonical.Bytes.{
  unique_u8, unique_u32, unique_i32, unique_str, unique_separator, IsShort,
}
use dungeon_barrage.Hash.{
  turn_end_reason_discriminant, ammo_policy_discriminant, effect_kind_discriminant,
  material_discriminant, persistent_object_kind_discriminant, match_phase_discriminant,
  erosion_axis_discriminant,
}
use dungeon_barrage.Hash.Emit.{emit_point, emit_terrain, emit_status, emit_object, emit_block}

effect_kind-inj :
    (a b : EffectKind) → effect_kind_discriminant a ≡ effect_kind_discriminant b → a ≡ b
unfolding effect_kind_discriminant
effect_kind-inj a b e = ground (arith, e)

pub ammo_policy-inj :
    (a b : AmmoPolicy) → ammo_policy_discriminant a ≡ ammo_policy_discriminant b → a ≡ b
unfolding ammo_policy_discriminant
ammo_policy-inj a b e = ground (arith, e)

material-inj : (a b : Material) → material_discriminant a ≡ material_discriminant b → a ≡ b
unfolding material_discriminant
material-inj a b e = ground (arith, e)

object_kind-inj :
    (a b : PersistentObjectKind)
    → persistent_object_kind_discriminant a ≡ persistent_object_kind_discriminant b
    → a ≡ b
unfolding persistent_object_kind_discriminant
object_kind-inj a b e = ground (arith, e)

pub match_phase-inj :
    (a b : MatchPhase) → match_phase_discriminant a ≡ match_phase_discriminant b → a ≡ b
unfolding match_phase_discriminant
match_phase-inj a b e = ground (arith, e)

erosion_axis-inj :
    (a b : ErosionAxis) → erosion_axis_discriminant a ≡ erosion_axis_discriminant b → a ≡ b
unfolding erosion_axis_discriminant
erosion_axis-inj a b e = ground (arith, e)

pub turn_end_reason-inj :
    (a b : TurnEndReason) → turn_end_reason_discriminant a ≡ turn_end_reason_discriminant b → a ≡ b
unfolding turn_end_reason_discriminant
turn_end_reason-inj a b e = ground (arith, e)

abbrev pub IsPoint : FixedPoint → Type 0
IsPoint p = IsI32 p.x × IsI32 p.y

pub unique_point :
    (p q : FixedPoint) (r s : List ℕ)
    → IsPoint p
    → IsPoint q
    → emit_point p r ≡ emit_point q s
    → (p ≡ q) × (r ≡ s)
unfolding emit_point
unique_point p q r s v w e0 =
    let (x, e1) = unique_i32 p.x q.x _ _ v.0 w.0 e0 in
    let (y, e2) = unique_i32 p.y q.y _ _ v.1 w.1 e1 in (same x y, e2)
  where
    same : p.x ≡ q.x → p.y ≡ q.y → p ≡ q
    same x y = cc (x, y)

abbrev pub IsStatus : StatusEffect → Type 0
IsStatus s = IsI32 s.magnitude

pub unique_status :
    (a b : StatusEffect) (r s : List ℕ)
    → IsStatus a
    → IsStatus b
    → emit_status a r ≡ emit_status b s
    → (a ≡ b) × (r ≡ s)
unfolding emit_status
unique_status a b r s v w e0 =
    let (k, e1) =
      unique_u8 (effect_kind_discriminant a.kind) (effect_kind_discriminant b.kind) _ _ e0 in
    let (m, e2) = unique_i32 a.magnitude b.magnitude _ _ v w e1 in
    let (t, e3) = unique_u8 a.turns_remaining b.turns_remaining _ _ e2 in
    (same (effect_kind-inj a.kind b.kind k) m t, e3)
  where
    same :
        a.kind ≡ b.kind → a.magnitude ≡ b.magnitude → a.turns_remaining ≡ b.turns_remaining → a ≡ b
    same k m t = cc (k, m, t)

-- A mask as `create_mask` makes it, and what the other machine types allow.
pub record IsTerrain (t : TerrainMask) : Type 0 where
  pub width : t.width < 2 ^ 32
  pub height : t.height < 2 ^ 32
  pub cells : IsShort t.cells

pub unique_terrain :
    (a b : TerrainMask) (r s : List ℕ)
    → IsTerrain a
    → IsTerrain b
    → emit_terrain a r ≡ emit_terrain b s
    → (a ≡ b) × (r ≡ s)
unfolding emit_terrain
unique_terrain a b r s v w e =
    let (_, e0) = unique_separator _ _ _ _ e in
    let (x, e1) = unique_u32 a.width b.width _ _ v.width w.width e0 in
    let (y, e2) = unique_u32 a.height b.height _ _ v.height w.height e1 in
    let (c, e3) = unique_str a.cells b.cells _ _ v.cells w.cells e2 in (same x y c, e3)
  where
    same : a.width ≡ b.width → a.height ≡ b.height → a.cells ≡ b.cells → a ≡ b
    same x y c = cc (x, y, c)

pub record IsObject (o : PersistentObject) : Type 0 where
  pub sequence : o.sequence < 2 ^ 32
  pub owner : IsShort o.owner_id
  pub position : IsPoint o.position
  pub health : o.health < 2 ^ 16

pub unique_object :
    (a b : PersistentObject) (r s : List ℕ)
    → IsObject a
    → IsObject b
    → emit_object a r ≡ emit_object b s
    → (a ≡ b) × (r ≡ s)
unfolding emit_object
unique_object a b r s v w e0 =
    let (n, e1) = unique_u32 a.sequence b.sequence _ _ v.sequence w.sequence e0 in
    let (o, e2) = unique_str a.owner_id b.owner_id _ _ v.owner w.owner e1 in
    let (k, e3) =
      unique_u8 (persistent_object_kind_discriminant a.kind)
        (persistent_object_kind_discriminant b.kind) _ _ e2 in
    let (p, e4) = unique_point a.position b.position _ _ v.position w.position e3 in
    let (h, e5) =
      unique_u32 a.health b.health _ _ (omega (arith, v.health)) (omega (arith, w.health)) e4 in
    let (t, e6) = unique_u8 a.turns_remaining b.turns_remaining _ _ e5 in
    (same n o (object_kind-inj a.kind b.kind k) p h t, e6)
  where
    same :
        a.sequence ≡ b.sequence
        → a.owner_id ≡ b.owner_id
        → a.kind ≡ b.kind
        → a.position ≡ b.position
        → a.health ≡ b.health
        → a.turns_remaining ≡ b.turns_remaining
        → a ≡ b
    same n o k p h t = cc (n, o, k, p, h, t)

pub record IsWireBlock (b : TerrainBlock) : Type 0 where
  pub id : b.id < 2 ^ 32
  pub origin_x : IsI32 b.origin_cell_x
  pub origin_y : IsI32 b.origin_cell_y
  pub width : b.width_cells < 2 ^ 16
  pub height : b.height_cells < 2 ^ 16
  pub health : b.health < 2 ^ 16
  pub max_health : b.max_health < 2 ^ 16

pub unique_block :
    (a b : TerrainBlock) (r s : List ℕ)
    → IsWireBlock a
    → IsWireBlock b
    → emit_block a r ≡ emit_block b s
    → (a ≡ b) × (r ≡ s)
unfolding emit_block
unique_block a b r s v w e0 =
    let (n, e1) = unique_u32 a.id b.id _ _ v.id w.id e0 in
    let (x, e2) = unique_i32 a.origin_cell_x b.origin_cell_x _ _ v.origin_x w.origin_x e1 in
    let (y, e3) = unique_i32 a.origin_cell_y b.origin_cell_y _ _ v.origin_y w.origin_y e2 in
    let (c, e4) =
      unique_u32 a.width_cells b.width_cells _ _ (omega (arith, v.width)) (omega (arith, w.width))
        e3 in
    let (d, e5) =
      unique_u32 a.height_cells b.height_cells _ _ (omega (arith, v.height))
        (omega (arith, w.height)) e4 in
    let (m, e6) =
      unique_u8 (material_discriminant a.material) (material_discriminant b.material) _ _ e5 in
    let (h, e7) =
      unique_u32 a.health b.health _ _ (omega (arith, v.health)) (omega (arith, w.health)) e6 in
    let (f, e8) =
      unique_u32 a.max_health b.max_health _ _ (omega (arith, v.max_health))
        (omega (arith, w.max_health)) e7 in
    let (g, e9) =
      unique_u8 (erosion_axis_discriminant a.erosion_axis)
        (erosion_axis_discriminant b.erosion_axis) _ _ e8 in
    (
      same n x y c d (material-inj a.material b.material m) h f
          (erosion_axis-inj a.erosion_axis b.erosion_axis g),
      e9,
    )
  where
    same :
        a.id ≡ b.id
        → a.origin_cell_x ≡ b.origin_cell_x
        → a.origin_cell_y ≡ b.origin_cell_y
        → a.width_cells ≡ b.width_cells
        → a.height_cells ≡ b.height_cells
        → a.material ≡ b.material
        → a.health ≡ b.health
        → a.max_health ≡ b.max_health
        → a.erosion_axis ≡ b.erosion_axis
        → a ≡ b
    same n x y c d m h f g = cc (n, x, y, c, d, m, h, f, g)
