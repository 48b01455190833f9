-- ===== src/Command/Apply/Atomic.antt =====
-- What a command of crates/db-sim-core/src/command.rs may change: nothing if it is refused, and neither
-- the turn nor the ledger but for its own name if it is accepted; it is never accepted twice.
use dungeon_barrage.Base.{
  ◌≡◌, ◌∙◌, refl, ap, inl, inr, List, [], ◌∷◌, Option, none, some, Bool-cases,
}
use dungeon_barrage.Error.{SimResult, ok, err}
use dungeon_barrage.Types.Ability.{AbilityDefinition, SpecialEffect, consumes_gauge}
use dungeon_barrage.Types.Player.{PlayerState}
use dungeon_barrage.Types.State.{SimulationState, player}
use dungeon_barrage.Types.Outcome.{
  AbilityCommand, player_eliminated, invalid_target, StrikeResolution,
}
use dungeon_barrage.Resolve.{ResolveContext}
use dungeon_barrage.Resolve.Dispatch.{resolve_effect}
use dungeon_barrage.Resolve.Dispatch.Frame.{Frame, frame}
use dungeon_barrage.Resolve.Dispatch.Weapons.{StrikesKeepFrame}
use dungeon_barrage.Resolve.Dispatch.Effect.{resolve_effect-KeepsFrame}
use dungeon_barrage.Command.{Checked, valid, refused, ◌>>=◌, known}
use dungeon_barrage.Command.Attack.{Action, resolve_attack, apply_backlash}
use dungeon_barrage.Command.Attack.Frame.{
  KeepsAction, SameAction, resolve_attack-KeepsAction, apply_backlash-SameFrame,
}
use dungeon_barrage.Command.Apply.{spend, context_of, renumber, resolve_effects, perform}

-- The fields of the match that no part of an ability changes, the attack of the turn aside.
abbrev pub SameTurn : SimulationState → SimulationState → Type 0
SameTurn s t =
    (t.turn_number ≡ s.turn_number)
    × (t.phase ≡ s.phase)
    × (t.active_player_id ≡ s.active_player_id)
    × (t.movement_remaining ≡ s.movement_remaining)
    × (t.processed_command_ids ≡ s.processed_command_ids)

frame-SameTurn : (s t : SimulationState) → frame t ≡ frame s → SameTurn s t
unfolding frame
frame-SameTurn s t e = (
  ap (λ (f : Frame). f.turn_number) e,
  ap (λ (f : Frame). f.phase) e,
  ap (λ (f : Frame). f.active_player_id) e,
  ap (λ (f : Frame). f.movement_remaining) e,
  ap (λ (f : Frame). f.processed_command_ids) e,
)

spend-SameTurn : (s : SimulationState) (c : AbilityCommand) → SameTurn s (spend s c)
unfolding spend
spend-SameTurn s c = elim (Bool-cases (consumes_gauge c.slot)) [
  | inl free ↦ rw free (refl, refl, refl, refl, refl)
  | inr paid ↦ rw paid (refl, refl, refl, refl, refl)
]

resolve_effects-KeepsAction :
    (effects : List SpecialEffect) (a : Action) → KeepsAction a (resolve_effects effects a)
unfolding resolve_effects
resolve_effects-KeepsAction [] a = refl
resolve_effects-KeepsAction (effect ∷ effects) a =
    go (resolve_effect a.context effect) (resolve_effect-KeepsFrame a.context effect)
      (λ b. resolve_effects-KeepsAction effects b)
  where
    after : (b : Action) (r : Checked Action) → SameAction a b → KeepsAction b r → KeepsAction a r
    after b (valid d) h k = k ∙ h
    after b (refused e) h k = tt

    go :
        (r : SimResult (ResolveContext × List StrikeResolution))
        → StrikesKeepFrame a.context r
        → ((b : Action) → KeepsAction b (resolve_effects effects b))
        → KeepsAction a (elim r [
          | err _ ↦ refused invalid_target
          | ok (next, reported) ↦
              resolve_effects effects
                (record a { context = next; strikes = renumber a.strikes reported })
        ])
    go (err e) h k = tt
    go (ok (next, reported)) h k =
        let b : Action = record a { context = next; strikes = renumber a.strikes reported } in
        after b (resolve_effects effects b) h (k b)

-- What an action that started in a match has led to.
abbrev pub Performs : SimulationState → Checked Action → Type 0
Performs s (valid a) = SameTurn s a.context.state
Performs s (refused e) = Unit

bind-Performs :
    (s : SimulationState) (m : Checked Action) (f : Action → Checked Action)
    → Performs s m
    → ((a : Action) → KeepsAction a (f a))
    → Performs s (m >>= f)
bind-Performs s (refused e) f h k = tt
bind-Performs s (valid a) f h k = go (f a) (k a)
  where
    go : (r : Checked Action) → KeepsAction a r → Performs s r
    go (refused e) e' = tt
    go (valid b) e' =
        let n = frame-SameTurn a.context.state b.context.state e' in
        (n.0 ∙ h.0, n.1 ∙ h.1, n.2 ∙ h.2, n.3 ∙ h.3, n.4 ∙ h.4)

effects-KeepsAction :
    (ability : AbilityDefinition) (a : Action)
    → KeepsAction a (
        resolve_effects ability.effects
          (record a { context = apply_backlash ability.attack a.context }))
effects-KeepsAction ability a =
    go (resolve_effects ability.effects hurt) (resolve_effects-KeepsAction ability.effects hurt)
  where
    hurt : Action
    hurt = record a { context = apply_backlash ability.attack a.context }

    go : (r : Checked Action) → KeepsAction hurt r → KeepsAction a r
    go (refused e) h = tt
    go (valid b) h = h ∙ apply_backlash-SameFrame ability.attack a.context

pub perform-Performs :
    (s : SimulationState) (c : AbilityCommand) (ability : AbilityDefinition)
    → Performs s (perform s c ability)
unfolding perform
perform-Performs s c ability = go (player (spend s c) c.player_id)
  where
    start : PlayerState → Action
    start actor = record {
      context = context_of (spend s c) c actor.position;
      strikes = [];
      traces = [];
      dealt = 0;
    }

    attacked :
        (actor : PlayerState) (r : Checked Action) → KeepsAction (start actor) r → Performs s r
    attacked actor (refused e) h = tt
    attacked actor (valid a) h =
        let n = frame-SameTurn (spend s c) a.context.state h in
        let p = spend-SameTurn s c in (n.0 ∙ p.0, n.1 ∙ p.1, n.2 ∙ p.2, n.3 ∙ p.3, n.4 ∙ p.4)

    go :
        (o : Option PlayerState)
        → Performs s (
            known o player_eliminated >>= λ actor.
            resolve_attack ability.attack c ability actor.position (start actor) >>= λ a.
            resolve_effects ability.effects
              (record a { context = apply_backlash ability.attack a.context }))
    go none = tt
    go (some actor) =
        bind-Performs s (resolve_attack ability.attack c ability actor.position (start actor)) _
          (attacked actor _
            (resolve_attack-KeepsAction ability.attack c ability actor.position (start actor)))
          (effects-KeepsAction ability)
