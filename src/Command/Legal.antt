-- ===== src/Command/Legal.antt =====
-- What makes an ability command legal, independently of the order of the checks in
-- crates/db-sim-core/src/command.rs.
use dungeon_barrage.Base.{
  ◌≡◌, ◌≢◌, ◌↔◌, ◌⊎◌, refl, inl, inr, Bool, true, false, Option, none, some, arith, Option-cases,
  ◌≤◌, ◌<◌, pos, pos_part, ◌≤ℤ◌, Text, text_eq, text_eq→eq, text_eq_self, ap, ◌∙◌,
}
use dungeon_barrage.Types.Ability.{AbilitySlot, trinket, AbilityDefinition, consumes_gauge}
use dungeon_barrage.Types.Player.{PlayerState, is_eliminated}
use dungeon_barrage.Types.State.{
  SimulationState, player, MatchPhase, movement, aiming_and_selection, accepts_ability_command,
}
use dungeon_barrage.Types.Outcome.{
  AbilityCommand, CommandRejection, ability_not_available, invalid_target,
}
use dungeon_barrage.Roster.{CharacterProfile}
use dungeon_barrage.Items.{equipped_ability}
use dungeon_barrage.Command.{
  Checked, valid, refused, ◌>>=◌, known, refuse_if, trinket_charge_full, has_processed,
  max_launch_power, validate_target, validate_targets, names_twice, profile_for, validate_actor,
  validate_inputs, validate_ability,
}

-- A gauge that is full, or an attack that is still to come.
abbrev IsReady : AbilitySlot → SimulationState → PlayerState → Type 0
IsReady trinket s p = trinket_charge_full ≤ p.trinket_charge
IsReady _ s p = s.has_attacked_this_turn ≡ false

abbrev IsTarget : SimulationState → Option Text → Type 0
IsTarget s none = Unit
IsTarget s (some id) = (q : PlayerState) × (player s id ≡ some q) × (0 < q.health)

abbrev AreDistinct : Option Text → Option Text → Type 0
AreDistinct (some id) (some secondary_id) = id ≢ secondary_id
AreDistinct _ _ = Unit

-- The actor lives and is the one to act, in a phase of action and at the turn of the state.
pub record IsActor (s : SimulationState) (c : AbilityCommand) (p : PlayerState) : Type 0 where
  pub unheard : has_processed s c.command_id ≡ false
  pub is_player : player s c.player_id ≡ some p
  pub lives : 0 < p.health
  pub acts : c.player_id ≡ s.active_player_id
  pub phase : (s.phase ≡ movement) ⊎ (s.phase ≡ aiming_and_selection)
  pub turn : c.expected_turn_number ≡ s.turn_number

pub record IsInRange (s : SimulationState) (c : AbilityCommand) : Type 0 where
  pub angle : (pos 0 ≤ℤ c.angle_millidegrees) × (pos_part c.angle_millidegrees < 360_000)
  pub power : (pos 0 ≤ℤ c.power_basis_points) × (c.power_basis_points ≤ℤ pos 10_000)
  pub in_reserve : c.power_basis_points ≤ℤ max_launch_power s

phase→ :
    (m : MatchPhase)
    → accepts_ability_command m ≡ true
    → (m ≡ movement) ⊎ (m ≡ aiming_and_selection)
unfolding accepts_ability_command
phase→ movement h = inl refl
phase→ aiming_and_selection h = inr refl
phase→ _ h = cc

phase← :
    (m : MatchPhase)
    → (m ≡ movement) ⊎ (m ≡ aiming_and_selection)
    → accepts_ability_command m ≡ true
unfolding accepts_ability_command
phase← m (inl e) = rw e refl
phase← m (inr e) = rw e refl

validate_actor→ :
    (s : SimulationState) (c : AbilityCommand) (p : PlayerState)
    → validate_actor s c ≡ valid p
    → IsActor s c p
unfolding validate_actor is_eliminated
validate_actor→ s c p h = ground (arith, phase→ s.phase, text_eq→eq c.player_id s.active_player_id)

validate_actor← :
    (s : SimulationState) (c : AbilityCommand) (p : PlayerState)
    → IsActor s c p
    → validate_actor s c ≡ valid p
unfolding validate_actor is_eliminated
validate_actor← s c p h =
    let own : text_eq c.player_id s.active_player_id ≡ true =
      ap (λ i. text_eq i s.active_player_id) h.acts ∙ text_eq_self s.active_player_id in
    ground (arith, phase← s.phase, own)

validate_inputs→ :
    (s : SimulationState) (c : AbilityCommand) (p : PlayerState)
    → validate_inputs s c p ≡ valid tt
    → IsReady c.slot s p × IsInRange s c
unfolding validate_inputs consumes_gauge
validate_inputs→ s c p h = ground arith

validate_inputs← :
    (s : SimulationState) (c : AbilityCommand) (p : PlayerState)
    → IsReady c.slot s p
    → IsInRange s c
    → validate_inputs s c p ≡ valid tt
unfolding validate_inputs consumes_gauge
validate_inputs← s c p h k = ground arith

validate_target→ :
    (s : SimulationState) (t : Option Text) → validate_target s t ≡ valid tt → IsTarget s t
unfolding validate_target is_eliminated
validate_target→ s none h = tt
validate_target→ s (some id) h = elim (Option-cases (player s id)) [
  | inl nobody ↦ cc (nobody)
  | inr (q, e) ↦ (q, e, ground (arith, e))
]

validate_target← :
    (s : SimulationState) (t : Option Text) → IsTarget s t → validate_target s t ≡ valid tt
unfolding validate_target is_eliminated
validate_target← s none h = refl
validate_target← s (some id) (q, e, lives) = ground (arith, e)

names_twice→ : (t u : Option Text) → names_twice t u ≡ false → AreDistinct t u
names_twice→ none u h = tt
names_twice→ (some id) none h = tt
names_twice→ (some id) (some id') h = λ e. cc (ap (λ i. text_eq i id') e, text_eq_self id', h)

names_twice← : (t u : Option Text) → AreDistinct t u → names_twice t u ≡ false
names_twice← none u h = refl
names_twice← (some id) none h = refl
names_twice← (some id) (some id') h = ground (arith, text_eq→eq id id')

bind→ {ℓ κ} :
    {A : Type ℓ} {B : Type κ} (m : Checked A) (f : A → Checked B) {b : B}
    → (m >>= f) ≡ valid b
    → (a : A) × (m ≡ valid a) × (f a ≡ valid b)
bind→ (valid a) f h = (a, refl, h)
bind→ (refused e) f h = cc

known→ {ℓ} :
    {A : Type ℓ} (o : Option A) (e : CommandRejection) {a : A} → known o e ≡ valid a → o ≡ some a
known→ none e h = cc
known→ (some a) e h = cc

not_refused : (b : Bool) (e : CommandRejection) → refuse_if b e ≡ valid tt → b ≡ false
not_refused true e h = cc
not_refused false e h = refl

-- A command is legal with a character and an ability.
pub record IsLegal (s : SimulationState) (c : AbilityCommand) (profile : CharacterProfile)
    (a : AbilityDefinition) : Type 0 where
  pub actor : PlayerState
  pub is_actor : IsActor s c actor
  pub has_profile : profile_for actor ≡ some profile
  pub has_ability : equipped_ability actor c.slot ≡ some a
  pub is_ready : IsReady c.slot s actor
  pub in_range : IsInRange s c
  pub target : IsTarget s c.target_player_id
  pub secondary : IsTarget s c.secondary_target_player_id
  pub distinct : AreDistinct c.target_player_id c.secondary_target_player_id

module _ (s : SimulationState) (c : AbilityCommand) (profile : CharacterProfile)
    (a : AbilityDefinition) where
  validate_ability→ : validate_ability s c ≡ valid (profile, a) → IsLegal s c profile a
  unfolding validate_ability validate_targets
  validate_ability→ h =
      let (p, e, h1) = bind→ (validate_actor s c) _ h in
      let (profile', e1, h2) = bind→ (known (profile_for p) ability_not_available) _ h1 in
      let (a', e2, h3) = bind→ (known (equipped_ability p c.slot) ability_not_available) _ h2 in
      let (_, e3, h4) = bind→ (validate_inputs s c p) _ h3 in
      let (_, e5, h6) = bind→ (validate_targets s c) _ h4 in
      let (_, e6, h7) = bind→ (validate_target s c.target_player_id) _ e5 in
      let (_, e7, h8) = bind→ (validate_target s c.secondary_target_player_id) _ h7 in
      let inputs = validate_inputs→ s c p e3 in
      record {
        actor = p;
        is_actor = validate_actor→ s c p e;
        has_profile = known→ (profile_for p) ability_not_available e1 ∙ cc h6;
        has_ability = known→ (equipped_ability p c.slot) ability_not_available e2 ∙ cc h6;
        is_ready = inputs.0;
        in_range = inputs.1;
        target = validate_target→ s c.target_player_id e6;
        secondary = validate_target→ s c.secondary_target_player_id e7;
        distinct = names_twice→ c.target_player_id c.secondary_target_player_id (
            not_refused (names_twice c.target_player_id c.secondary_target_player_id) invalid_target
              h8);
      }

  validate_ability← : IsLegal s c profile a → validate_ability s c ≡ valid (profile, a)
  unfolding validate_ability validate_targets
  validate_ability← l =
      let one = validate_actor← s c l.actor l.is_actor in
      let two = validate_inputs← s c l.actor l.is_ready l.in_range in
      let three = validate_target← s c.target_player_id l.target in
      let four = validate_target← s c.secondary_target_player_id l.secondary in
      let five = names_twice← c.target_player_id c.secondary_target_player_id l.distinct in
      rw (one, l.has_profile, l.has_ability, two, three, four, five) refl

-- The checks pass a command, with a character and an ability, exactly if it is legal with those.
pub validate_ability_iff :
    (s : SimulationState) (c : AbilityCommand) (profile : CharacterProfile) (a : AbilityDefinition)
    → (validate_ability s c ≡ valid (profile, a)) ↔ IsLegal s c profile a
validate_ability_iff s c profile a =
    (validate_ability→ s c profile a, validate_ability← s c profile a)
