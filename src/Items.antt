-- ===== src/Items.antt =====
-- crates/db-sim-core/src/character.rs: the retired item catalog, which a versioned replay falls back
-- to, the ability that a player has in a slot, and the checks of the catalog.
mod Weapons
pub mod Slots
use dungeon_barrage.Base.{
  ℕ, suc, Bool, true, false, not, ◌&&◌, ◌||◌, List, [], ◌∷◌, Option, none, some, find, filter,
  length, if◌then◌else◌, ltb, leb_ℤ, ◌==◌, pos, Text, text, text_eq,
}
use dungeon_barrage.Error.{
  SimResult, ok, err, unknown_definition, invalid_character, invalid_roster, slot_mismatch,
  duplicate_id, stat_out_of_range, ◌>>=◌,
}
use dungeon_barrage.Types.Ability.{
  AbilitySlot, basic, basic_alt, special, trinket, slot_index, EffectKind, knockback, push, kind_eq,
  SpecialEffect, TerrainProfile, untouched, crater, dig, Attack, AbilityDefinition,
}
use dungeon_barrage.Types.Player.{
  AmmoPolicy, finite, unlimited, AmmoCounter, Loadout, item_id, PlayerState,
}
use dungeon_barrage.Roster.{ability, for_player}
use Weapons.{
  secondary_damage_percent, ramshot_cannon_ability, frostfall_mortar_ability, mole_drill_ability,
  recurve_bow_ability, service_pistol_ability, line_repeater_ability, returning_boomerang_ability,
  tide_sprayer_ability, melee_ability, secondary_ability, trinket_ability, ember_crown_effect,
  frost_crown_effect, gale_anklet_effect, tide_anklet_effect, spark_crown_effect,
  spring_anklet_effect, burrow_anklet_effect, roost_crown_effect,
}

pub record ItemDefinition : Type 0 where
  pub id : Text
  pub display_name : Text
  pub slot : AbilitySlot
  pub ammo_policy : AmmoPolicy
  pub starting_ammo : ℕ
  pub ability : AbilityDefinition

-- An item has the name and the slot of its ability.
abbrev pub item_of : AmmoPolicy → ℕ → AbilityDefinition → ItemDefinition
item_of policy ammo a = record {
  id = a.id;
  display_name = a.display_name;
  slot = a.slot;
  ammo_policy = policy;
  starting_ammo = ammo;
  ability = a;
}

abbrev pub melee_item : Text → Text → ItemDefinition
melee_item id display_name = item_of unlimited 0 (melee_ability id display_name)

abbrev pub secondary_of : AbilityDefinition → Text → Text → ItemDefinition
secondary_of main id display_name = item_of unlimited 0 (secondary_ability main id display_name)

abbrev pub trinket_item : Text → Text → SpecialEffect → ItemDefinition
trinket_item id display_name effect = item_of unlimited 0 (trinket_ability id display_name effect)

abbrev pub launch_items : List ItemDefinition
launch_items =
    item_of finite 3 ramshot_cannon_ability
    ∷ item_of finite 3 frostfall_mortar_ability
    ∷ item_of finite 2 mole_drill_ability
    ∷ item_of finite 5 recurve_bow_ability
    ∷ item_of finite 6 service_pistol_ability
    ∷ item_of finite 4 line_repeater_ability
    ∷ item_of finite 3 returning_boomerang_ability
    ∷ item_of finite 5 tide_sprayer_ability
    ∷ secondary_of ramshot_cannon_ability (text "ramshot-shell") (text "Ramshot Sidearm")
    ∷ secondary_of frostfall_mortar_ability (text "frostfall-shell") (text "Frostfall Sidearm")
    ∷ secondary_of mole_drill_ability (text "mole-charge") (text "Mole Sidearm")
    ∷ secondary_of recurve_bow_ability (text "bow-bodkin") (text "Bow Sidearm")
    ∷ secondary_of service_pistol_ability (text "pistol-mag") (text "Pistol Sidearm")
    ∷ secondary_of line_repeater_ability (text "repeater-belt") (text "Repeater Sidearm")
    ∷ secondary_of returning_boomerang_ability (text "boomerang-finisher")
        (text "Boomerang Sidearm")
    ∷ secondary_of tide_sprayer_ability (text "tide-bladder") (text "Tide Sidearm")
    ∷ melee_item (text "trench-spade") (text "Trench Spade")
    ∷ melee_item (text "blood-maul") (text "Blood Maul")
    ∷ melee_item (text "breach-pick") (text "Breach Pick")
    ∷ melee_item (text "longsword") (text "Longsword")
    ∷ melee_item (text "crow-beak") (text "Crow Beak")
    ∷ melee_item (text "iron-fan") (text "Iron Fan")
    ∷ melee_item (text "hook-bill") (text "Hook Bill")
    ∷ melee_item (text "rust-cleaver") (text "Rust Cleaver")
    ∷ trinket_item (text "ember-crown") (text "Ember Crown") ember_crown_effect
    ∷ trinket_item (text "frost-crown") (text "Frost Crown") frost_crown_effect
    ∷ trinket_item (text "spark-crown") (text "Spark Crown") spark_crown_effect
    ∷ trinket_item (text "roost-crown") (text "Roost Crown") roost_crown_effect
    ∷ trinket_item (text "gale-anklet") (text "Gale Anklet") gale_anklet_effect
    ∷ trinket_item (text "tide-anklet") (text "Tide Anklet") tide_anklet_effect
    ∷ trinket_item (text "spring-anklet") (text "Spring Anklet") spring_anklet_effect
    ∷ trinket_item (text "burrow-anklet") (text "Burrow Anklet") burrow_anklet_effect
    ∷ []

unfoldable pub item : Text → Option ItemDefinition
unfolding text_eq
item id = find (λ d. text_eq d.id id) launch_items

unfoldable pub slot_eq : AbilitySlot → AbilitySlot → Bool
unfolding slot_index
slot_eq s t = slot_index s == slot_index t

unfoldable pub items_in_slot : AbilitySlot → List ItemDefinition
unfolding slot_eq
items_in_slot slot = filter (λ d. slot_eq d.slot slot) launch_items

-- The item of a slot, which must be made for it.
unfoldable pub slot_item : Loadout → AbilitySlot → Option ItemDefinition
unfolding item slot_eq item_id
slot_item loadout slot = elim (item (item_id loadout slot)) [
  | none ↦ none
  | some d ↦ if slot_eq d.slot slot then some d else none
]

unfoldable pub kit_ability : PlayerState → AbilitySlot → Option AbilityDefinition
unfolding for_player ability
kit_ability p slot = elim (for_player p) [ none ↦ none | some profile ↦ ability profile slot ]

-- The launch character's ability, or else that of the item in the slot.
unfoldable pub equipped_ability : PlayerState → AbilitySlot → Option AbilityDefinition
unfolding kit_ability slot_item
equipped_ability p slot = elim (kit_ability p slot) [
  | some a ↦ some a
  | none ↦ elim (slot_item p.loadout slot) [ none ↦ none | some d ↦ some d.ability ]
]

unfoldable pub ammo_for_slot : Loadout → AbilitySlot → SimResult AmmoCounter
unfolding slot_item
ammo_for_slot loadout slot = elim (slot_item loadout slot) [
  | none ↦ err unknown_definition
  | some d ↦
      ok (record { remaining = d.starting_ammo; maximum = d.starting_ammo; policy = d.ammo_policy })
]

unfoldable pub ammo_for_loadout : Loadout → SimResult (List AmmoCounter)
unfolding ammo_for_slot
ammo_for_loadout loadout = do
  main ← ammo_for_slot loadout basic
  secondary ← ammo_for_slot loadout basic_alt
  melee ← ammo_for_slot loadout special
  ok (main ∷ secondary ∷ melee ∷ [])
