-- ===== src/Types/Ability.antt =====
-- Abilities and their effects, as crates/db-sim-core/src/types.rs declares them.
use dungeon_barrage.Base.{ℕ, ◌*◌, Bool, true, false, List, Option, ℤ, pos, Text, text, ◌==◌}
use dungeon_barrage.Fixed.{position_scale, body_width, scale}

pub data RangeTier : Type 0 where
  melee tier1 tier2 tier3 : RangeTier

unfoldable pub reach : RangeTier → ℕ
reach melee = 5 * position_scale
reach tier1 = 8 * body_width
reach tier2 = 16 * body_width
reach tier3 = 26 * body_width

pub data MovementClass : Type 0 where
  slow normal fast : MovementClass

unfoldable pub per_turn : MovementClass → ℕ
per_turn slow = 10 * position_scale
per_turn normal = 4 * body_width
per_turn fast = 8 * body_width

pub data AbilitySlot : Type 0 where
  basic basic_alt special trinket : AbilitySlot

unfoldable pub slot_wire_name : AbilitySlot → Text
slot_wire_name basic = text "main"
slot_wire_name basic_alt = text "secondary"
slot_wire_name special = text "meleeTool"
slot_wire_name trinket = text "trinket"

unfoldable pub slot_index : AbilitySlot → ℕ
slot_index basic = 0
slot_index basic_alt = 1
slot_index special = 2
slot_index trinket = 3

unfoldable pub consumes_gauge : AbilitySlot → Bool
consumes_gauge trinket = true
consumes_gauge _ = false

pub data EffectTrigger : Type 0 where
  on_fire on_flight on_impact on_turn_end : EffectTrigger

pub data EffectKind : Type 0 where
  knockback chill cluster embers tunnel return recoil self_damage teleport pull push : EffectKind
  wall_impact lockdown spawn_turret heal health_transfer multi_strike guarantee_crit : EffectKind
  embed_projectile chain_detonate relocate obscure : EffectKind

-- The derived order of the kinds is the order of their declaration.
unfoldable pub kind_rank : EffectKind → ℕ
kind_rank knockback = 0
kind_rank chill = 1
kind_rank cluster = 2
kind_rank embers = 3
kind_rank tunnel = 4
kind_rank return = 5
kind_rank recoil = 6
kind_rank self_damage = 7
kind_rank teleport = 8
kind_rank pull = 9
kind_rank push = 10
kind_rank wall_impact = 11
kind_rank lockdown = 12
kind_rank spawn_turret = 13
kind_rank heal = 14
kind_rank health_transfer = 15
kind_rank multi_strike = 16
kind_rank guarantee_crit = 17
kind_rank embed_projectile = 18
kind_rank chain_detonate = 19
kind_rank relocate = 20
kind_rank obscure = 21

unfoldable pub kind_eq : EffectKind → EffectKind → Bool
unfolding kind_rank
kind_eq k l = kind_rank k == kind_rank l

pub record SpecialEffect : Type 0 where
  pub trigger : EffectTrigger
  pub kind : EffectKind
  pub magnitude : ℤ
  pub magnitude_secondary : ℤ
  pub duration_turns : ℕ

pub data TerrainProfile : Type 0 where
  untouched : TerrainProfile
  crater : ℕ → TerrainProfile
  dig : ℕ → ℕ → TerrainProfile

pub record ProjectileAttack : Type 0 where
  pub speed_per_tick : ℤ
  pub gravity_per_tick : ℤ
  pub wind_scale_basis_points : ℤ
  pub max_ticks : ℕ
  pub bounces : ℕ
  pub terrain : TerrainProfile

pub record StrikeAttack : Type 0 where
  pub range : ℤ
  pub terrain : TerrainProfile
  pub self_damage : ℕ

pub data Attack : Type 0 where
  projectile : ProjectileAttack → Attack
  strike : StrikeAttack → Attack

pub record AbilityDefinition : Type 0 where
  pub id : Text
  pub display_name : Text
  pub slot : AbilitySlot
  pub damage_percent : ℕ
  pub crit_damage_percent : ℕ
  pub crit_chance_basis_points : ℕ
  pub strikes_per_turn : ℕ
  pub attack : Attack
  pub effects : List SpecialEffect

abbrev pub base_attack : ℕ
base_attack = 100

unfoldable pub damage : AbilityDefinition → Option ℤ
unfolding scale
damage a = scale (pos base_attack) (pos a.damage_percent) (pos 100)

unfoldable pub crit_damage : AbilityDefinition → Option ℤ
unfolding scale
crit_damage a = scale (pos base_attack) (pos a.crit_damage_percent) (pos 100)
