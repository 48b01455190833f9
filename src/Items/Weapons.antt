-- ===== src/Items/Weapons.antt =====
-- The abilities of the retired item catalog, crates/db-sim-core/src/character.rs.
use dungeon_barrage.Base.{ℕ, ◌*◌, List, [], ◌∷◌, pos, Text, text}
use dungeon_barrage.Fixed.{position_scale, body_width}
use dungeon_barrage.Types.Ability.{
  melee, reach, AbilitySlot, basic, basic_alt, trinket, on_fire, on_impact, EffectTrigger,
  EffectKind, knockback, chill, push, embers, guarantee_crit, recoil, tunnel, heal, SpecialEffect,
  TerrainProfile, untouched, crater, dig, Attack, AbilityDefinition,
}
use dungeon_barrage.Roster.Kits.{
  tier1_speed, tier1_gravity, tier1_ticks, tier2_speed, tier2_gravity, tier2_ticks, tier3_speed,
  tier3_ticks,
}

abbrev pub tier3_gravity : ℕ
tier3_gravity = 12

abbrev pub secondary_damage_percent : ℕ
secondary_damage_percent = 16

-- An effect by its trigger, kind, two magnitudes and duration.
abbrev pub effect_of : EffectTrigger → EffectKind → ℕ → ℕ → ℕ → SpecialEffect
effect_of trigger kind magnitude secondary turns = record {
  trigger = trigger;
  kind = kind;
  magnitude = pos magnitude;
  magnitude_secondary = pos secondary;
  duration_turns = turns;
}

abbrev pub melee_tool_shove : SpecialEffect
melee_tool_shove = effect_of on_impact push (2 * position_scale) (5 * position_scale) 0

abbrev pub ramshot_knockback : SpecialEffect
ramshot_knockback = effect_of on_impact knockback (2 * position_scale) (3 * position_scale) 0

abbrev pub frostfall_chill : SpecialEffect
frostfall_chill = effect_of on_impact chill (2 * body_width) 0 1

abbrev pub tide_sprayer_push : SpecialEffect
tide_sprayer_push = effect_of on_impact push (2 * position_scale) (4 * position_scale) 0

abbrev pub ember_crown_effect : SpecialEffect
ember_crown_effect = effect_of on_impact embers 12 (4 * position_scale) 2

abbrev pub frost_crown_effect : SpecialEffect
frost_crown_effect = effect_of on_impact chill (2 * body_width) 0 1

abbrev pub gale_anklet_effect : SpecialEffect
gale_anklet_effect = effect_of on_impact knockback (2 * position_scale) (6 * position_scale) 0

abbrev pub tide_anklet_effect : SpecialEffect
tide_anklet_effect = effect_of on_impact push (3 * position_scale) (6 * position_scale) 0

abbrev pub spark_crown_effect : SpecialEffect
spark_crown_effect = effect_of on_fire guarantee_crit 1 0 0

abbrev pub spring_anklet_effect : SpecialEffect
spring_anklet_effect = effect_of on_fire recoil (3 * position_scale) 0 0

abbrev pub burrow_anklet_effect : SpecialEffect
burrow_anklet_effect = effect_of on_fire tunnel 12 20 0

abbrev pub roost_crown_effect : SpecialEffect
roost_crown_effect = effect_of on_fire heal 24 0 0

-- A flight by its speed, gravity, wind scale, ticks, bounces and terrain.
abbrev pub flight : ℕ → ℕ → ℕ → ℕ → ℕ → TerrainProfile → Attack
flight speed gravity wind ticks bounces terrain = Attack.projectile (record {
  speed_per_tick = pos speed;
  gravity_per_tick = pos gravity;
  wind_scale_basis_points = pos wind;
  max_ticks = ticks;
  bounces = bounces;
  terrain = terrain;
})

-- An ability that cannot be critical, by its name, slot, damage, strikes, attack and effects.
abbrev pub plain_ability :
    Text → Text → AbilitySlot → ℕ → ℕ → Attack → List SpecialEffect → AbilityDefinition
plain_ability id display_name slot percent strikes attack effects = record {
  id = id;
  display_name = display_name;
  slot = slot;
  damage_percent = percent;
  crit_damage_percent = percent;
  crit_chance_basis_points = 0;
  strikes_per_turn = strikes;
  attack = attack;
  effects = effects;
}

abbrev pub ramshot_cannon_ability : AbilityDefinition
ramshot_cannon_ability =
    plain_ability (text "ramshot-cannon") (text "Ramshot Cannon") basic 62 1
      (flight tier2_speed tier2_gravity 10_000 tier2_ticks 0 (crater 3)) (ramshot_knockback ∷ [])

abbrev pub frostfall_mortar_ability : AbilityDefinition
frostfall_mortar_ability =
    plain_ability (text "frostfall-mortar") (text "Frostfall Mortar") basic 48 1
      (flight tier2_speed tier2_gravity 10_000 tier2_ticks 0 (crater 3)) (frostfall_chill ∷ [])

abbrev pub mole_drill_ability : AbilityDefinition
mole_drill_ability =
    plain_ability (text "mole-drill") (text "Mole Drill") basic 58 1
      (flight tier1_speed tier1_gravity 6_000 tier1_ticks 0 (dig 2 24)) []

abbrev pub recurve_bow_ability : AbilityDefinition
recurve_bow_ability =
    plain_ability (text "recurve-bow") (text "Recurve Bow") basic 32 1
      (flight tier2_speed tier2_gravity 12_000 tier2_ticks 0 untouched) []

abbrev pub service_pistol_ability : AbilityDefinition
service_pistol_ability =
    plain_ability (text "service-pistol") (text "5.7 Service Pistol") basic 26 1
      (flight tier3_speed tier3_gravity 0 tier3_ticks 0 untouched) []

abbrev pub line_repeater_ability : AbilityDefinition
line_repeater_ability =
    plain_ability (text "line-repeater") (text "Line Repeater") basic 16 4
      (flight tier3_speed 4 0 tier1_ticks 0 untouched) []

abbrev pub returning_boomerang_ability : AbilityDefinition
returning_boomerang_ability =
    plain_ability (text "returning-boomerang") (text "Returning Boomerang") basic 28 1
      (flight tier2_speed 8 4_000 tier2_ticks 2 (crater 2)) []

abbrev pub tide_sprayer_ability : AbilityDefinition
tide_sprayer_ability =
    plain_ability (text "tide-sprayer") (text "Tide Sprayer") basic 18 1
      (flight tier1_speed tier1_gravity 2_000 tier1_ticks 0 untouched) (tide_sprayer_push ∷ [])

abbrev pub melee_ability : Text → Text → AbilityDefinition
melee_ability id display_name =
    plain_ability id display_name AbilitySlot.special 22 1
      (Attack.strike (record { range = pos (reach melee); terrain = dig 4 6; self_damage = 0 }))
      (melee_tool_shove ∷ [])

abbrev pub without_terrain : Attack → Attack
without_terrain (Attack.projectile p) = Attack.projectile (record p { terrain = untouched })
without_terrain (Attack.strike s) =
    Attack.strike (record s { terrain = untouched; self_damage = 0 })

abbrev pub secondary_ability : AbilityDefinition → Text → Text → AbilityDefinition
secondary_ability main id display_name =
    plain_ability id display_name basic_alt secondary_damage_percent 1 (without_terrain main.attack)
      []

abbrev pub trinket_ability : Text → Text → SpecialEffect → AbilityDefinition
trinket_ability id display_name effect =
    plain_ability id display_name trinket 20 1
      (Attack.strike (record { range = pos (reach melee); terrain = untouched; self_damage = 0 }))
      (effect ∷ [])
