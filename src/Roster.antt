-- ===== src/Roster.antt =====
-- crates/db-sim-core/src/character_roster.rs: the launch characters, found by their name or their kit,
-- and the one fighter of character.rs.
pub mod Kits
pub mod Lookup
use dungeon_barrage.Base.{
  ℕ, Bool, ◌&&◌, List, [], ◌∷◌, Option, none, some, find, if◌then◌else◌, ℤ, pos, Text, text,
  text_eq,
}
use dungeon_barrage.Types.Ability.{
  AbilitySlot, basic, basic_alt, trinket, MovementClass, slow, normal, fast, per_turn,
  AbilityDefinition, RangeTier, tier2,
}
use dungeon_barrage.Types.Player.{Loadout, PlayerState}
use Kits.{
  leslie_ant_glob, leslie_tongue_whip, leslie_corrosive_ooze, crow_precision, crow_heavy_revolver,
  crow_aerial_barrage, erus_curved_fireball, erus_staff_thrust, erus_celestial_staff,
  kreena_recurve_bow, kreena_hunting_dagger, kreena_global_arrow,
}

pub data CharacterId : Type 0 where
  leslie crow erus kreena : CharacterId

unfoldable pub wire_name : CharacterId → Text
wire_name leslie = text "leslie"
wire_name crow = text "crow"
wire_name erus = text "erus"
wire_name kreena = text "kreena"

pub record CharacterProfile : Type 0 where
  pub id : CharacterId
  pub name : Text
  pub role : Text
  pub max_health : ℕ
  pub movement_class : MovementClass
  pub movement_allowance : ℤ
  pub shot1 : AbilityDefinition
  pub shot2_or_melee : AbilityDefinition
  pub special : AbilityDefinition

unfoldable pub ability : CharacterProfile → AbilitySlot → Option AbilityDefinition
ability p basic = some p.shot1
ability p basic_alt = some p.shot2_or_melee
ability p trinket = some p.special
ability p AbilitySlot.special = none

unfoldable pub derived_loadout : CharacterProfile → Loadout
derived_loadout p = record {
  main = p.shot1.id;
  secondary = p.shot2_or_melee.id;
  melee_tool = text "trench-spade";
  trinket = p.special.id;
}

abbrev pub leslie_profile : CharacterProfile
leslie_profile = record {
  id = leslie;
  name = text "Leslie";
  role = text "Siege / terrain disruptor";
  max_health = 340;
  movement_class = slow;
  movement_allowance = pos (per_turn slow);
  shot1 = leslie_ant_glob;
  shot2_or_melee = leslie_tongue_whip;
  special = leslie_corrosive_ooze;
}

abbrev pub crow_profile : CharacterProfile
crow_profile = record {
  id = crow;
  name = text "Crow";
  role = text "Aerial precision skirmisher";
  max_health = 250;
  movement_class = fast;
  movement_allowance = pos (per_turn fast);
  shot1 = crow_precision;
  shot2_or_melee = crow_heavy_revolver;
  special = crow_aerial_barrage;
}

abbrev pub erus_profile : CharacterProfile
erus_profile = record {
  id = erus;
  name = text "Erus";
  role = text "Arcane artillery / sky battery";
  max_health = 270;
  movement_class = normal;
  movement_allowance = pos (per_turn normal);
  shot1 = erus_curved_fireball;
  shot2_or_melee = erus_staff_thrust;
  special = erus_celestial_staff;
}

abbrev pub kreena_profile : CharacterProfile
kreena_profile = record {
  id = kreena;
  name = text "Kreena";
  role = text "Long-range mobile finisher";
  max_health = 260;
  movement_class = fast;
  movement_allowance = pos (per_turn fast);
  shot1 = kreena_recurve_bow;
  shot2_or_melee = kreena_hunting_dagger;
  special = kreena_global_arrow;
}

abbrev pub launch_characters : List CharacterProfile
launch_characters = leslie_profile ∷ crow_profile ∷ erus_profile ∷ kreena_profile ∷ []

unfoldable pub find_character : Text → Option CharacterProfile
unfolding wire_name text_eq per_turn
find_character id = find (λ p. text_eq (wire_name p.id) id) launch_characters

unfoldable pub find_by_kit : Text → Text → Text → Option CharacterProfile
unfolding text_eq per_turn
find_by_kit shot1_id shot2_or_melee_id special_id =
    find
      (λ p.
        text_eq p.shot1.id shot1_id
        && (text_eq p.shot2_or_melee.id shot2_or_melee_id && text_eq p.special.id special_id))
      launch_characters

unfoldable pub for_player : PlayerState → Option CharacterProfile
unfolding find_by_kit
for_player p = find_by_kit p.loadout.main p.loadout.secondary p.loadout.trinket

-- `fighter().movement` of character.rs, the class of its one fighter.
abbrev pub fighter_movement : MovementClass
fighter_movement = normal
