-- ===== src/Resolve/Statuses/Embers.antt =====
-- Embers of crates/db-sim-core/src/resolve/status.rs: who is marked, and what is reported.
use dungeon_barrage.Base.{
  ℕ, not, ◌<◌, ◌≡◌, ◌⊎◌, ◌∙◌, refl, ap, inl, inr, Bool, true, false, ◌&&◌, ◌==◌, ltb, List, [], ◌∷◌,
  ◌++◌, map, filter, any, AllAgree, arith, Bool-cases,
}
use dungeon_barrage.Fixed.{FixedPoint, within_radius}
use dungeon_barrage.Error.{ok}
use dungeon_barrage.Types.Ability.{SpecialEffect, embers, kind_eq, kind_rank}
use dungeon_barrage.Types.Player.{PlayerState, StatusEffect, StatusChange, is_eliminated}
use dungeon_barrage.Status.{apply_status}
use dungeon_barrage.Resolve.{ResolveContext}
use dungeon_barrage.Resolve.Statuses.{
  is_singed, ember_players, resolve_embers, resolve_kind, resolve,
}
use dungeon_barrage.Resolve.Statuses.Pinned.{apply_status-any}

-- The mark: its kind, its strength and its turns.
abbrev pub ember_of : SpecialEffect → StatusEffect
ember_of effect = record {
  kind = embers;
  magnitude = effect.magnitude;
  turns_remaining = effect.duration_turns;
}

abbrev pub is_ember : SpecialEffect → StatusEffect → Bool
is_ember effect status =
    kind_eq status.kind embers && status.turns_remaining == effect.duration_turns

-- A living player within the second magnitude of the impact is marked; anybody else stays the same.
abbrev pub Embers : FixedPoint → SpecialEffect → PlayerState → PlayerState → Type 0
Embers impact effect p q =
    ((0 < p.health)
      × (within_radius p.position impact effect.magnitude_secondary ≡ true)
      × (q ≡ (apply_status p (ember_of effect)).0)
      × (any (is_ember effect) q.statuses ≡ true))
    ⊎ (((p.health ≡ 0) ⊎ (within_radius p.position impact effect.magnitude_secondary ≡ false))
        × (q ≡ p))

-- The marked among the players.
abbrev pub marked : FixedPoint → SpecialEffect → List PlayerState → List PlayerState
marked impact effect =
    filter (λ p. ltb 0 p.health && within_radius p.position impact effect.magnitude_secondary)

abbrev pub ember_change : SpecialEffect → PlayerState → StatusChange
ember_change effect p = (apply_status p (ember_of effect)).1

same_test :
    (impact : FixedPoint) (effect : SpecialEffect) (p : PlayerState)
    → is_singed impact effect p
      ≡ (ltb 0 p.health && within_radius p.position impact effect.magnitude_secondary)
unfolding is_singed is_eliminated
same_test impact effect p =
    ap (λ b. b && within_radius p.position impact effect.magnitude_secondary) (lives p.health)
  where
    lives : (n : ℕ) → not (n == 0) ≡ ltb 0 n
    lives n = ground arith

is_ember-ember_of : (effect : SpecialEffect) → is_ember effect (ember_of effect) ≡ true
unfolding kind_eq kind_rank
is_ember-ember_of effect = ground arith

singed-Embers :
    (impact : FixedPoint) (effect : SpecialEffect) (p : PlayerState)
    → (ltb 0 p.health && within_radius p.position impact effect.magnitude_secondary) ≡ true
    → Embers impact effect p (apply_status p (ember_of effect)).0
singed-Embers impact effect p h = inl (
  ground (arith, h),
  ground (arith, h),
  refl,
  apply_status-any (is_ember effect) p (ember_of effect) (is_ember-ember_of effect),
)

spared-Embers :
    (impact : FixedPoint) (effect : SpecialEffect) (p : PlayerState)
    → (ltb 0 p.health && within_radius p.position impact effect.magnitude_secondary) ≡ false
    → Embers impact effect p p
spared-Embers impact effect p h =
    elim (Bool-cases (within_radius p.position impact effect.magnitude_secondary)) [
      | inl near ↦ inr (inl (ground (arith, h, near)), refl)
      | inr far ↦ inr (inr far, refl)
    ]

ember_players-Embers :
    (impact : FixedPoint) (effect : SpecialEffect) (ps : List PlayerState)
    → AllAgree (Embers impact effect) ps (ember_players impact effect ps).0
      × ((ember_players impact effect ps).1 ≡ map (ember_change effect) (marked impact effect ps))
unfolding ember_players
ember_players-Embers impact effect [] = (tt, refl)
ember_players-Embers impact effect (p ∷ ps) =
    let (rest, reported) = ember_players-Embers impact effect ps in
    elim (Bool-cases
      (ltb 0 p.health && within_radius p.position impact effect.magnitude_secondary)) [
        | inl hit ↦
            let singed = same_test impact effect p ∙ hit in
            rw (singed, hit)
              (
                (singed-Embers impact effect p hit, rest),
                ap (λ cs. ember_change effect p ∷ cs) reported,
              )
        | inr missed ↦
            let spared = same_test impact effect p ∙ missed in
            rw (spared, missed) ((spared-Embers impact effect p missed, rest), reported)
      ]

-- Embers always succeed. A player with health left, within the effect's second magnitude of the impact, has
-- the status afterwards, with the effect's duration; everybody else, in the same order, is as before; and
-- the application to each marked player is reported, in the order of the players.
pub resolve-embers :
    (ctx : ResolveContext) (effect : SpecialEffect)
    → effect.kind ≡ embers
    → (after : ResolveContext) × (resolve ctx effect ≡ ok after)
      × AllAgree (Embers ctx.impact_point effect) ctx.state.players after.state.players
      × (after.status_changes
          ≡ ctx.status_changes
            ++ map (ember_change effect) (marked ctx.impact_point effect ctx.state.players))
unfolding resolve resolve_kind resolve_embers
resolve-embers ctx effect kind =
    let (players, reported) = ember_players-Embers ctx.impact_point effect ctx.state.players in
    (
      _,
      ap (λ k. resolve_kind k ctx effect) kind,
      players,
      ap (λ cs. ctx.status_changes ++ cs) reported,
    )
