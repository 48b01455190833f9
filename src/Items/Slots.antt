-- ===== src/Items/Slots.antt =====
-- The abilities that crates/db-sim-core/src/character.rs hands out fit their slots.
use dungeon_barrage.Base.{
  ◌≡◌, refl, inl, inr, List, [], ◌∷◌, All, some, arith, Bool-cases, Option-cases, find, Bool, subst,
  text_eq, Text, ◌&&◌,
}
use dungeon_barrage.Types.Ability.{
  AbilitySlot, basic, basic_alt, special, trinket, AbilityDefinition, slot_index,
}
use dungeon_barrage.Types.Player.{PlayerState, item_id}
use dungeon_barrage.Roster.{CharacterProfile, launch_characters, ability, for_player, find_by_kit}
use dungeon_barrage.Items.{
  ItemDefinition, launch_items, item, slot_eq, slot_item, kit_ability, equipped_ability,
}

find-All {κ} :
    {A : Type 0} (P : A → Type κ) (q : A → Bool) (xs : List A) (a : A)
    → find q xs ≡ some a
    → All P xs
    → P a
find-All P q [] a h k = cc
find-All P q (x ∷ xs) a h k = elim (Bool-cases (q x)) [
  | inl same ↦ let e : x ≡ a = ground (arith, same) in subst P e k.0
  | inr other ↦ find-All P q xs a (ground (arith, other)) k.1
]

slot_index_injective : (s t : AbilitySlot) → slot_index s ≡ slot_index t → s ≡ t
unfolding slot_index
slot_index_injective basic basic h = refl
slot_index_injective basic_alt basic_alt h = refl
slot_index_injective special special h = refl
slot_index_injective trinket trinket h = refl
slot_index_injective _ _ h = absurd (omega arith)

-- The abilities of a launch character stand in the slots that they are made for.
abbrev FitsKit : CharacterProfile → Type 0
unfolding slot_index
FitsKit c =
    (slot_index c.shot1.slot ≡ slot_index basic)
    × (slot_index c.shot2_or_melee.slot ≡ slot_index basic_alt)
    × (slot_index c.special.slot ≡ slot_index trinket)

launch_characters-FitsKit : All FitsKit launch_characters
unfolding slot_index
launch_characters-FitsKit = omega arith

abbrev IsMadeFor : ItemDefinition → Type 0
IsMadeFor d = slot_index d.ability.slot ≡ slot_index d.slot

launch_items-IsMadeFor : All IsMadeFor launch_items
unfolding slot_index
launch_items-IsMadeFor = omega arith

ability-slot :
    (c : CharacterProfile) (slot : AbilitySlot) (a : AbilityDefinition)
    → FitsKit c
    → ability c slot ≡ some a
    → slot_index a.slot ≡ slot_index slot
unfolding ability slot_index
ability-slot c basic a f h = ground arith
ability-slot c basic_alt a f h = ground arith
ability-slot c trinket a f h = ground arith
ability-slot c special a f h = cc

find_by_kit-FitsKit :
    (shot1 shot2 special_id : Text) (c : CharacterProfile)
    → find_by_kit shot1 shot2 special_id ≡ some c
    → FitsKit c
unfolding find_by_kit
find_by_kit-FitsKit shot1 shot2 special_id c e =
    find-All FitsKit
      (λ q.
        text_eq q.shot1.id shot1
        && (text_eq q.shot2_or_melee.id shot2 && text_eq q.special.id special_id))
      launch_characters c e launch_characters-FitsKit

item-IsMadeFor : (id : Text) (d : ItemDefinition) → item id ≡ some d → IsMadeFor d
unfolding item
item-IsMadeFor id d e =
    find-All IsMadeFor (λ d. text_eq d.id id) launch_items d e launch_items-IsMadeFor

kit_ability-slot :
    (p : PlayerState) (slot : AbilitySlot) (a : AbilityDefinition)
    → kit_ability p slot ≡ some a
    → slot_index a.slot ≡ slot_index slot
unfolding kit_ability for_player
kit_ability-slot p slot a h = elim (Option-cases (for_player p)) [
  | inl stranger ↦ cc (stranger)
  | inr (c, e) ↦
      ability-slot c slot a
        (find_by_kit-FitsKit p.loadout.main p.loadout.secondary p.loadout.trinket c e)
        (ground (arith, e))
]

slot_item-slot :
    (p : PlayerState) (slot : AbilitySlot) (d : ItemDefinition)
    → slot_item p.loadout slot ≡ some d
    → slot_index d.ability.slot ≡ slot_index slot
unfolding slot_item slot_eq
slot_item-slot p slot d h = elim (Option-cases (item (item_id p.loadout slot))) [
  | inl unknown ↦ cc (unknown)
  | inr (c, e) ↦ ground (arith, e, item-IsMadeFor (item_id p.loadout slot) c e)
]

-- Whatever ability a player has in a slot is made for that slot.
pub equipped_ability-slot :
    (p : PlayerState) (slot : AbilitySlot) (a : AbilityDefinition)
    → equipped_ability p slot ≡ some a
    → a.slot ≡ slot
unfolding equipped_ability
equipped_ability-slot p slot a h = elim (Option-cases (kit_ability p slot)) [
  | inl none' ↦ elim (Option-cases (slot_item p.loadout slot)) [
    | inl bare ↦ cc (none', bare)
    | inr (d, e) ↦
        slot_index_injective a.slot slot (ground (arith, none', e, slot_item-slot p slot d e))
  ]
  | inr (b, e) ↦ slot_index_injective a.slot slot (ground (arith, e, kit_ability-slot p slot b e))
]
