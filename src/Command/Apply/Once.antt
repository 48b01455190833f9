-- ===== src/Command/Apply/Once.antt =====
-- A command of crates/db-sim-core/src/command.rs is accepted once: its name stays in the ledger.
use dungeon_barrage.Base.{
  ℕ, ◌≡◌, ◌⊎◌, ◌∙◌, refl, sym, ap, inl, inr, true, List, [], ◌∷◌, if◌then◌else◌, ◌==◌, Text,
  Bool-cases, subst,
}
use dungeon_barrage.Types.Ability.{AbilityDefinition, consumes_gauge}
use dungeon_barrage.Types.State.{SimulationState}
use dungeon_barrage.Types.Outcome.{
  AbilityCommand, duplicate_command, CommandOutcome, CommandResult, accepted, rejected,
}
use dungeon_barrage.Roster.{CharacterProfile}
use dungeon_barrage.Command.{
  Checked, valid, refused, ◌>>=◌, has_processed, is_found, binary_search, validate_ability,
  validate_actor,
}
use dungeon_barrage.Command.Ledger.{record_id, Ascending, record_id-found}
use dungeon_barrage.Command.Legal.{IsLegal, validate_ability_iff}
use dungeon_barrage.Command.Attack.{Action}
use dungeon_barrage.Command.Apply.{
  award_gauge, settle_command, outcome_of, perform, resolve_ability, result_of, apply_ability,
}
use dungeon_barrage.Command.Apply.Atomic.{SameTurn, Performs, perform-Performs}

-- The match after an accepted command: its turn is the same, and its ledger has the command's name.
pub record Commits (s : SimulationState) (c : AbilityCommand) (t : SimulationState) : Type 0 where
  pub turn : t.turn_number ≡ s.turn_number
  pub phase : t.phase ≡ s.phase
  pub active : t.active_player_id ≡ s.active_player_id
  pub allowance : t.movement_remaining ≡ s.movement_remaining
  pub ledger : t.processed_command_ids ≡ record_id c.command_id s.processed_command_ids

award_gauge-SameTurn :
    (s : SimulationState) (id : Text) (dealt : ℕ) → SameTurn s (award_gauge s id dealt)
unfolding award_gauge
award_gauge-SameTurn s id dealt = elim (Bool-cases (dealt == 0)) [
  | inl none' ↦ rw none' (refl, refl, refl, refl, refl)
  | inr some' ↦ rw some' (refl, refl, refl, refl, refl)
]

settle_command-Commits :
    (s : SimulationState) (c : AbilityCommand) (a : Action)
    → SameTurn s a.context.state
    → Commits s c (settle_command c a)
unfolding settle_command
settle_command-Commits s c a h =
    let n =
      award_gauge-SameTurn a.context.state c.player_id
        (if consumes_gauge c.slot then 0 else a.dealt) in
    record {
      turn = n.0 ∙ h.0;
      phase = n.1 ∙ h.1;
      active = n.2 ∙ h.2;
      allowance = n.3 ∙ h.3;
      ledger = ap (record_id c.command_id) (n.4 ∙ h.4);
    }

-- What an attempt on a match comes to.
abbrev Resolves :
    SimulationState → AbilityCommand → Checked (SimulationState × CommandOutcome) → Type 0
Resolves s c (valid (t, outcome)) =
    Commits s c t
    × (outcome.command_id ≡ c.command_id)
    × (outcome.turn_number_before ≡ s.turn_number)
    × (outcome.turn_number_after ≡ s.turn_number)
Resolves s c (refused e) = Unit

resolve_ability-Resolves :
    (s : SimulationState) (c : AbilityCommand) (ability : AbilityDefinition)
    → Resolves s c (resolve_ability s c ability)
unfolding resolve_ability
resolve_ability-Resolves s c ability = go (perform s c ability) (perform-Performs s c ability)
  where
    go :
        (r : Checked Action)
        → Performs s r
        → Resolves s c
            (r >>= λ a. valid (settle_command c a, outcome_of s c a (settle_command c a)))
    go (refused e) h = tt
    go (valid a) h =
        let commits = settle_command-Commits s c a h in (commits, refl, refl, commits.turn)

-- What became of a command: refused without a trace, or legal and committed.
abbrev pub IsAtomic : SimulationState → AbilityCommand → SimulationState × CommandResult → Type 0
IsAtomic s c (t, rejected e) = t ≡ s
IsAtomic s c (t, accepted outcome) =
    ((profile : CharacterProfile) × (ability : AbilityDefinition) × IsLegal s c profile ability)
    × Commits s c t
    × (outcome.command_id ≡ c.command_id)
    × (outcome.turn_number_before ≡ s.turn_number)
    × (outcome.turn_number_after ≡ s.turn_number)

-- A refused command leaves the match exactly as it was. An accepted one was legal, with some character
-- and ability; it keeps the turn, the phase, the active player and the allowance, and adds its name,
-- which its outcome reports with the turn, to the ledger.
pub apply_ability-IsAtomic :
    (s : SimulationState) (c : AbilityCommand) → IsAtomic s c (apply_ability s c)
unfolding apply_ability
apply_ability-IsAtomic s c =
    checked (validate_ability s c) (λ profile a. (validate_ability_iff s c profile a).0)
  where
    resolved :
        (profile : CharacterProfile) (ability : AbilityDefinition)
        (r : Checked (SimulationState × CommandOutcome))
        → IsLegal s c profile ability
        → Resolves s c r
        → IsAtomic s c (result_of s r)
    resolved profile ability (refused e) l h = refl
    resolved profile ability (valid (t, outcome)) l h = ((profile, ability, l), h.0, h.1, h.2, h.3)

    checked :
        (r : Checked (CharacterProfile × AbilityDefinition))
        → ((profile : CharacterProfile) (a : AbilityDefinition)
            → r ≡ valid (profile, a)
            → IsLegal s c profile a)
        → IsAtomic s c (result_of s (r >>= λ p. resolve_ability s c p.1))
    checked (refused e) l = refl
    checked (valid (profile, ability)) l =
        resolved profile ability (resolve_ability s c ability) (l profile ability refl)
          (resolve_ability-Resolves s c ability)

-- The match after a sequence of commands, of whomever.
unfoldable pub run_commands : List AbilityCommand → SimulationState → SimulationState
run_commands [] s = s
run_commands (c ∷ cs) s = run_commands cs (apply_ability s c).0

abbrev Holds : Text → SimulationState → Type 0
Holds id s = Ascending s.processed_command_ids × (has_processed s id ≡ true)

Commits-Holds :
    (s t : SimulationState) (c : AbilityCommand) (id : Text)
    → Ascending s.processed_command_ids
    → Commits s c t
    → ((id ≡ c.command_id) ⊎ (has_processed s id ≡ true))
    → Holds id t
unfolding has_processed
Commits-Holds s t c id up h k =
    let r = record_id-found c.command_id id s.processed_command_ids up in
    subst (λ ids. Ascending ids × (is_found (binary_search id ids) ≡ true)) (sym h.ledger)
      (r.0, r.1.1 k)

IsAtomic-Holds :
    (s : SimulationState) (c : AbilityCommand) (id : Text) (r : SimulationState × CommandResult)
    → Holds id s
    → IsAtomic s c r
    → Holds id r.0
IsAtomic-Holds s c id (t, rejected e) h a = subst (Holds id) (sym a) h
IsAtomic-Holds s c id (t, accepted outcome) h a = Commits-Holds s t c id h.0 a.1 (inr h.1)

run_commands-Holds :
    (cs : List AbilityCommand) (s : SimulationState) (id : Text)
    → Holds id s
    → Holds id (run_commands cs s)
unfolding run_commands
run_commands-Holds [] s id h = h
run_commands-Holds (c ∷ cs) s id h =
    run_commands-Holds cs (apply_ability s c).0 id
      (IsAtomic-Holds s c id (apply_ability s c) h (apply_ability-IsAtomic s c))

validate_actor-duplicate :
    (s : SimulationState) (c : AbilityCommand)
    → has_processed s c.command_id ≡ true
    → validate_actor s c ≡ refused duplicate_command
unfolding validate_actor
validate_actor-duplicate s c h = rw h refl

validate_ability-duplicate :
    (s : SimulationState) (c : AbilityCommand)
    → has_processed s c.command_id ≡ true
    → validate_ability s c ≡ refused duplicate_command
unfolding validate_ability
validate_ability-duplicate s c h = rw (validate_actor-duplicate s c h) refl

duplicate-rejected :
    (s : SimulationState) (c : AbilityCommand)
    → has_processed s c.command_id ≡ true
    → apply_ability s c ≡ (s, rejected duplicate_command)
unfolding apply_ability
duplicate-rejected s c h =
    ap (λ m. result_of s (m >>= λ checked. resolve_ability s c checked.1))
      (validate_ability-duplicate s c h)

-- After a command was accepted in a match with an ascending ledger, and any sequence of further
-- commands, a command of the same name is refused as a duplicate and changes nothing.
pub apply_ability_once :
    (s t : SimulationState) (c again : AbilityCommand) (outcome : CommandOutcome)
    (cs : List AbilityCommand)
    → Ascending s.processed_command_ids
    → apply_ability s c ≡ (t, accepted outcome)
    → again.command_id ≡ c.command_id
    → apply_ability (run_commands cs t) again ≡ (run_commands cs t, rejected duplicate_command)
apply_ability_once s t c again outcome cs up e same =
    let atomic : IsAtomic s c (t, accepted outcome) =
      subst (IsAtomic s c) e (apply_ability-IsAtomic s c) in
    duplicate-rejected (run_commands cs t) again
      (run_commands-Holds cs t again.command_id
        (Commits-Holds s t c again.command_id up atomic.1 (inl same))).1
