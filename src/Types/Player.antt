-- ===== src/Types/Player.antt =====
-- Players, their statuses and what they leave in the field, as crates/db-sim-core/src/types.rs
-- declares them.
use dungeon_barrage.Base.{
  ℕ, zero, suc, [], ◌∷◌, get_or, ◌-◌, Bool, true, false, ◌||◌, List, ◌==◌, ltb, if◌then◌else◌, ℤ,
  Text,
}
use dungeon_barrage.Fixed.{FixedPoint}
use dungeon_barrage.Types.Ability.{
  AbilitySlot, basic, basic_alt, special, trinket, EffectKind, slot_index,
}

pub data AmmoPolicy : Type 0 where
  finite unlimited : AmmoPolicy

pub record AmmoCounter : Type 0 where
  pub remaining : ℕ
  pub maximum : ℕ
  pub policy : AmmoPolicy

unfoldable pub is_unlimited : AmmoPolicy → Bool
is_unlimited unlimited = true
is_unlimited finite = false

unfoldable pub can_spend : AmmoCounter → Bool
unfolding is_unlimited
can_spend a = is_unlimited a.policy || ltb 0 a.remaining

unfoldable pub spend : AmmoCounter → AmmoCounter
unfolding is_unlimited
spend a = if is_unlimited a.policy then a else record a { remaining = a.remaining - 1 }

pub record Loadout : Type 0 where
  pub main : Text
  pub secondary : Text
  pub melee_tool : Text
  pub trinket : Text

unfoldable pub item_id : Loadout → AbilitySlot → Text
item_id l basic = l.main
item_id l basic_alt = l.secondary
item_id l special = l.melee_tool
item_id l trinket = l.trinket

pub record Appearance : Type 0 where
  pub skin_id : Text
  pub ability_skin_ids : List Text
  pub victory_pose_id : Text

pub record StatusEffect : Type 0 where
  pub kind : EffectKind
  pub magnitude : ℤ
  pub turns_remaining : ℕ

-- The three ammunition counters are a fixed array.
pub record PlayerState : Type 0 where
  pub id : Text
  pub team : ℕ
  pub health : ℕ
  pub max_health : ℕ
  pub position : FixedPoint
  pub loadout : Loadout
  pub ammo : List AmmoCounter
  pub trinket_charge : ℕ
  pub statuses : List StatusEffect
  pub appearance : Appearance

-- The counter of a slot, and an empty one for a slot that has none.
unfoldable pub ammo_for : PlayerState → AbilitySlot → AmmoCounter
unfolding slot_index
ammo_for p slot =
    get_or p.ammo (slot_index slot) (record { remaining = 0; maximum = 0; policy = finite })

unfoldable pub update_at : ℕ → List AmmoCounter → List AmmoCounter
unfolding spend
update_at i [] = []
update_at zero (a ∷ ammo) = spend a ∷ ammo
update_at (suc i) (a ∷ ammo) = a ∷ update_at i ammo

unfoldable pub spend_ammo : PlayerState → AbilitySlot → PlayerState
unfolding update_at slot_index
spend_ammo p slot = record p { ammo = update_at (slot_index slot) p.ammo }

unfoldable pub is_eliminated : PlayerState → Bool
is_eliminated p = p.health == 0

pub data PersistentObjectKind : Type 0 where
  turret embedded_knife gas_cloud : PersistentObjectKind

pub record PersistentObject : Type 0 where
  pub sequence : ℕ
  pub owner_id : Text
  pub kind : PersistentObjectKind
  pub position : FixedPoint
  pub health : ℕ
  pub turns_remaining : ℕ

pub data PersistentObjectRemovalCause : Type 0 where
  replaced capacity_evicted detonated expired destroyed owner_eliminated :
      PersistentObjectRemovalCause

pub data PersistentObjectTransition : Type 0 where
  spawned : PersistentObjectTransition
  removed : PersistentObjectRemovalCause → PersistentObjectTransition

pub record PersistentObjectChange : Type 0 where
  pub object : PersistentObject
  pub transition : PersistentObjectTransition

-- The numbers are magnitudes and turns, as the constructors of the source name them.
pub data StatusTransition : Type 0 where
  applied : ℤ → ℕ → StatusTransition
  refreshed : ℤ → ℕ → ℤ → ℕ → StatusTransition
  charge_consumed : ℤ → StatusTransition
  ticked : ℕ → StatusTransition
  exhausted expired : StatusTransition

pub record StatusChange : Type 0 where
  pub player_id : Text
  pub kind : EffectKind
  pub transition : StatusTransition
