-- ===== src/Roster/Lookup.antt =====
-- Finding a launch character by its name or its kit, in crates/db-sim-core/src/character_roster.rs.
use dungeon_barrage.Base.{
  ◌≡◌, ◌↔◌, refl, ◌∙◌, sym, ap, true, List, [], ◌∷◌, some, find, text_eq, text_eq→eq, Bool-cases,
  Bool, inl, inr, Text, arith,
}
use dungeon_barrage.Types.Player.{PlayerState}
use dungeon_barrage.Roster.{
  CharacterId, leslie, crow, erus, kreena, wire_name, CharacterProfile, derived_loadout,
  leslie_profile, crow_profile, erus_profile, kreena_profile, launch_characters, find_character,
  for_player,
}

abbrev pub profile_of : CharacterId → CharacterProfile
profile_of leslie = leslie_profile
profile_of crow = crow_profile
profile_of erus = erus_profile
profile_of kreena = kreena_profile

-- A player who carries the kit of a launch character plays that character, whatever else the player's state.
pub for_player-derived_loadout :
    (c : CharacterId) (p : PlayerState)
    → for_player (record p { loadout = derived_loadout (profile_of c) }) ≡ some (profile_of c)
unfolding for_player derived_loadout
for_player-derived_loadout leslie p = refl
for_player-derived_loadout crow p = refl
for_player-derived_loadout erus p = refl
for_player-derived_loadout kreena p = refl

found_by :
    (test : CharacterProfile → Bool) (ps : List CharacterProfile) (p : CharacterProfile)
    → find test ps ≡ some p
    → test p ≡ true
found_by test [] p h = cc
found_by test (q ∷ ps) p h = elim (Bool-cases (test q)) [
  | inl e ↦ ground (arith, e, h)
  | inr e ↦ found_by test ps p (ground (arith, e, h))
]

profile-id : (c : CharacterId) → (profile_of c).id ≡ c
profile-id leslie = refl
profile-id crow = refl
profile-id erus = refl
profile-id kreena = refl

wire_name-found : (c : CharacterId) → find_character (wire_name c) ≡ some (profile_of c)
unfolding find_character
wire_name-found leslie = refl
wire_name-found crow = refl
wire_name-found erus = refl
wire_name-found kreena = refl

found-wire_name :
    (id : Text) (p : CharacterProfile) → find_character id ≡ some p → wire_name p.id ≡ id
unfolding find_character
found-wire_name id p h =
    text_eq→eq (wire_name p.id) id
      (found_by (λ q. text_eq (wire_name q.id) id) launch_characters p h)

-- A text finds a character exactly if it is that character's wire name.
pub find_character_iff :
    (c : CharacterId) (id : Text) → (find_character id ≡ some (profile_of c)) ↔ (id ≡ wire_name c)
find_character_iff c id = (
  λ h. sym (found-wire_name id (profile_of c) h) ∙ ap wire_name (profile-id c),
  λ e. ap find_character e ∙ wire_name-found c,
)
