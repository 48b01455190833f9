-- ===== src/Roster/Kits.antt =====
-- The fixed kits of the launch characters, crates/db-sim-core/src/character_roster.rs.
use dungeon_barrage.Base.{ℕ, ◌*◌, List, [], ◌∷◌, ℤ, pos, Text, text}
use dungeon_barrage.Fixed.{position_scale}
use dungeon_barrage.Types.Ability.{
  melee, reach, AbilitySlot, basic, basic_alt, trinket, on_fire, on_impact, cluster, pull, embers,
  knockback, push, spawn_turret, recoil, SpecialEffect, TerrainProfile, untouched, crater, dig,
  Attack, AbilityDefinition,
}

abbrev pub tier1_speed : ℕ
tier1_speed = 900

abbrev pub tier1_gravity : ℕ
tier1_gravity = 20

abbrev pub tier1_ticks : ℕ
tier1_ticks = 140

abbrev pub tier2_speed : ℕ
tier2_speed = 1_200

abbrev pub tier2_gravity : ℕ
tier2_gravity = 16

abbrev pub tier2_ticks : ℕ
tier2_ticks = 200

abbrev pub tier3_speed : ℕ
tier3_speed = 1_500

abbrev pub tier3_ticks : ℕ
tier3_ticks = 300

pub record ProjectileSpec : Type 0 where
  pub damage_percent : ℕ
  pub crit_damage_percent : ℕ
  pub crit_chance_basis_points : ℕ
  pub strikes_per_turn : ℕ
  pub speed_per_tick : ℤ
  pub gravity_per_tick : ℤ
  pub wind_scale_basis_points : ℤ
  pub max_ticks : ℕ
  pub bounces : ℕ
  pub terrain : TerrainProfile
  pub effects : List SpecialEffect

abbrev pub projectile : Text → Text → AbilitySlot → ProjectileSpec → AbilityDefinition
projectile id display_name slot spec = record {
  id = id;
  display_name = display_name;
  slot = slot;
  damage_percent = spec.damage_percent;
  crit_damage_percent = spec.crit_damage_percent;
  crit_chance_basis_points = spec.crit_chance_basis_points;
  strikes_per_turn = spec.strikes_per_turn;
  attack = Attack.projectile (record {
    speed_per_tick = spec.speed_per_tick;
    gravity_per_tick = spec.gravity_per_tick;
    wind_scale_basis_points = spec.wind_scale_basis_points;
    max_ticks = spec.max_ticks;
    bounces = spec.bounces;
    terrain = spec.terrain;
  });
  effects = spec.effects;
}

pub record StrikeSpec : Type 0 where
  pub damage_percent : ℕ
  pub crit_damage_percent : ℕ
  pub crit_chance_basis_points : ℕ
  pub range : ℤ
  pub effects : List SpecialEffect

abbrev pub strike : Text → Text → AbilitySlot → StrikeSpec → AbilityDefinition
strike id display_name slot spec = record {
  id = id;
  display_name = display_name;
  slot = slot;
  damage_percent = spec.damage_percent;
  crit_damage_percent = spec.crit_damage_percent;
  crit_chance_basis_points = spec.crit_chance_basis_points;
  strikes_per_turn = 1;
  attack = Attack.strike (record { range = spec.range; terrain = untouched; self_damage = 0 });
  effects = spec.effects;
}

abbrev pub leslie_cluster : SpecialEffect
leslie_cluster = record {
  trigger = on_impact;
  kind = cluster;
  magnitude = pos 3;
  magnitude_secondary = pos 12;
  duration_turns = 30;
}

abbrev pub leslie_pull : SpecialEffect
leslie_pull = record {
  trigger = on_impact;
  kind = pull;
  magnitude = pos (2 * position_scale);
  magnitude_secondary = pos (3 * position_scale);
  duration_turns = 0;
}

abbrev pub leslie_ooze_burn : SpecialEffect
leslie_ooze_burn = record {
  trigger = on_impact;
  kind = embers;
  magnitude = pos 12;
  magnitude_secondary = pos (4 * position_scale);
  duration_turns = 3;
}

abbrev pub crow_revolver_knockback : SpecialEffect
crow_revolver_knockback = record {
  trigger = on_impact;
  kind = knockback;
  magnitude = pos (3 * position_scale);
  magnitude_secondary = pos (2 * position_scale);
  duration_turns = 0;
}

abbrev pub erus_burn : SpecialEffect
erus_burn = record {
  trigger = on_impact;
  kind = embers;
  magnitude = pos 10;
  magnitude_secondary = pos (3 * position_scale);
  duration_turns = 2;
}

abbrev pub erus_repel : SpecialEffect
erus_repel = record {
  trigger = on_impact;
  kind = push;
  magnitude = pos (3 * position_scale);
  magnitude_secondary = pos (3 * position_scale);
  duration_turns = 0;
}

abbrev pub erus_staff_battery : SpecialEffect
erus_staff_battery = record {
  trigger = on_impact;
  kind = spawn_turret;
  magnitude = pos 0;
  magnitude_secondary = pos 0;
  duration_turns = 3;
}

abbrev pub kreena_disengage : SpecialEffect
kreena_disengage = record {
  trigger = on_fire;
  kind = recoil;
  magnitude = pos (2 * position_scale);
  magnitude_secondary = pos 0;
  duration_turns = 0;
}

abbrev pub leslie_ant_glob : AbilityDefinition
leslie_ant_glob = projectile (text "leslie-ant-glob") (text "Ant Glob") basic (record {
  damage_percent = 34;
  crit_damage_percent = 34;
  crit_chance_basis_points = 0;
  strikes_per_turn = 1;
  speed_per_tick = pos tier1_speed;
  gravity_per_tick = pos tier1_gravity;
  wind_scale_basis_points = pos 7_000;
  max_ticks = tier1_ticks;
  bounces = 1;
  terrain = untouched;
  effects = leslie_cluster ∷ [];
})

abbrev pub leslie_tongue_whip : AbilityDefinition
leslie_tongue_whip = strike (text "leslie-tongue-whip") (text "Tongue Whip") basic_alt (record {
  damage_percent = 28;
  crit_damage_percent = 28;
  crit_chance_basis_points = 0;
  range = pos (3 * position_scale);
  effects = leslie_pull ∷ [];
})

abbrev pub leslie_corrosive_ooze : AbilityDefinition
leslie_corrosive_ooze =
    projectile (text "leslie-corrosive-ooze") (text "Corrosive Vomit Ooze") trinket (record {
      damage_percent = 18;
      crit_damage_percent = 18;
      crit_chance_basis_points = 0;
      strikes_per_turn = 1;
      speed_per_tick = pos tier1_speed;
      gravity_per_tick = pos tier1_gravity;
      wind_scale_basis_points = pos 3_000;
      max_ticks = tier1_ticks;
      bounces = 0;
      terrain = untouched;
      effects = leslie_ooze_burn ∷ [];
    })

abbrev pub crow_precision : AbilityDefinition
crow_precision =
    projectile (text "crow-precision-57") (text "5.7 High-Velocity Precision") basic (record {
      damage_percent = 34;
      crit_damage_percent = 50;
      crit_chance_basis_points = 1_500;
      strikes_per_turn = 1;
      speed_per_tick = pos tier3_speed;
      gravity_per_tick = pos 0;
      wind_scale_basis_points = pos 0;
      max_ticks = tier3_ticks;
      bounces = 0;
      terrain = untouched;
      effects = [];
    })

abbrev pub crow_heavy_revolver : AbilityDefinition
crow_heavy_revolver =
    projectile (text "crow-heavy-revolver") (text "Heavy Revolver") basic_alt (record {
      damage_percent = 42;
      crit_damage_percent = 42;
      crit_chance_basis_points = 0;
      strikes_per_turn = 1;
      speed_per_tick = pos tier3_speed;
      gravity_per_tick = pos 2;
      wind_scale_basis_points = pos 0;
      max_ticks = tier3_ticks;
      bounces = 0;
      terrain = dig 1 4;
      effects = crow_revolver_knockback ∷ [];
    })

abbrev pub crow_aerial_barrage : AbilityDefinition
crow_aerial_barrage =
    projectile (text "crow-aerial-barrage") (text "Aerial Barrage") trinket (record {
      damage_percent = 18;
      crit_damage_percent = 18;
      crit_chance_basis_points = 0;
      strikes_per_turn = 4;
      speed_per_tick = pos tier3_speed;
      gravity_per_tick = pos 4;
      wind_scale_basis_points = pos 0;
      max_ticks = tier2_ticks;
      bounces = 0;
      terrain = untouched;
      effects = [];
    })

abbrev pub erus_curved_fireball : AbilityDefinition
erus_curved_fireball =
    projectile (text "erus-curved-fireball") (text "Curved Fireball") basic (record {
      damage_percent = 44;
      crit_damage_percent = 44;
      crit_chance_basis_points = 0;
      strikes_per_turn = 1;
      speed_per_tick = pos tier2_speed;
      gravity_per_tick = pos tier2_gravity;
      wind_scale_basis_points = pos 10_000;
      max_ticks = tier2_ticks;
      bounces = 0;
      terrain = crater 2;
      effects = erus_burn ∷ [];
    })

abbrev pub erus_staff_thrust : AbilityDefinition
erus_staff_thrust = strike (text "erus-staff-thrust") (text "Staff Thrust") basic_alt (record {
  damage_percent = 24;
  crit_damage_percent = 24;
  crit_chance_basis_points = 0;
  range = pos (reach melee);
  effects = erus_repel ∷ [];
})

abbrev pub erus_celestial_staff : AbilityDefinition
erus_celestial_staff =
    projectile (text "erus-celestial-staff") (text "Celestial Staff Battery") trinket (record {
      damage_percent = 0;
      crit_damage_percent = 0;
      crit_chance_basis_points = 0;
      strikes_per_turn = 1;
      speed_per_tick = pos tier2_speed;
      gravity_per_tick = pos tier2_gravity;
      wind_scale_basis_points = pos 6_000;
      max_ticks = tier2_ticks;
      bounces = 0;
      terrain = untouched;
      effects = erus_staff_battery ∷ [];
    })

abbrev pub kreena_recurve_bow : AbilityDefinition
kreena_recurve_bow = projectile (text "kreena-recurve-bow") (text "Recurve Bow") basic (record {
  damage_percent = 38;
  crit_damage_percent = 50;
  crit_chance_basis_points = 1_000;
  strikes_per_turn = 1;
  speed_per_tick = pos tier2_speed;
  gravity_per_tick = pos 12;
  wind_scale_basis_points = pos 8_000;
  max_ticks = tier2_ticks;
  bounces = 0;
  terrain = untouched;
  effects = [];
})

abbrev pub kreena_hunting_dagger : AbilityDefinition
kreena_hunting_dagger =
    strike (text "kreena-hunting-dagger") (text "Hunting Dagger") basic_alt (record {
      damage_percent = 36;
      crit_damage_percent = 52;
      crit_chance_basis_points = 1_500;
      range = pos (3 * position_scale);
      effects = kreena_disengage ∷ [];
    })

abbrev pub kreena_global_arrow : AbilityDefinition
kreena_global_arrow =
    projectile (text "kreena-global-magic-arrow") (text "Global Magic Arrow") trinket (record {
      damage_percent = 58;
      crit_damage_percent = 58;
      crit_chance_basis_points = 0;
      strikes_per_turn = 1;
      speed_per_tick = pos tier3_speed;
      gravity_per_tick = pos 8;
      wind_scale_basis_points = pos 0;
      max_ticks = tier3_ticks;
      bounces = 0;
      terrain = untouched;
      effects = [];
    })
