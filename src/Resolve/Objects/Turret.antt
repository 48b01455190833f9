-- ===== src/Resolve/Objects/Turret.antt =====
-- A player of crates/db-sim-core/src/resolve/objects.rs has one turret at most.
use mathlib.Core.List.{append-nil}
use dungeon_barrage.Base.{
  ◌≡◌, ◌∙◌, refl, inl, inr, Bool, true, not, List, [], ◌∷◌, ◌++◌, filter, filter-filter,
  filter-filter-not, Bool-cases, text_eq_self,
}
use dungeon_barrage.Error.{ok}
use dungeon_barrage.Types.Ability.{SpecialEffect}
use dungeon_barrage.Types.Player.{PersistentObject}
use dungeon_barrage.Resolve.{ResolveContext}
use dungeon_barrage.Resolve.Objects.{is_turret, owns_turret, new_turret, spawn_turret}

filter-append {ℓ} :
    {A : Type ℓ} (p : A → Bool) (xs ys : List A) → filter p (xs ++ ys) ≡ filter p xs ++ filter p ys
filter-append p [] ys = refl
filter-append p (x ∷ xs) ys = elim (Bool-cases (p x)) [
  | inl in' ↦ rw (in', filter-append p xs ys) refl
  | inr out ↦ rw (out, filter-append p xs ys) refl
]

-- Spawning a turret always succeeds: whatever turrets the actor had, they have the new one alone, and
-- all other objects stay, in their order.
pub spawn_turret_lem :
    (ctx : ResolveContext) (effect : SpecialEffect)
    → (after : ResolveContext) × (spawn_turret ctx effect ≡ ok after)
      × (filter (owns_turret ctx.actor_id) after.state.objects ≡ new_turret ctx effect ∷ [])
      × (filter (λ o. not (owns_turret ctx.actor_id o)) after.state.objects
          ≡ filter (λ o. not (owns_turret ctx.actor_id o)) ctx.state.objects)
unfolding spawn_turret
spawn_turret_lem ctx effect = (_, refl, one, others)
  where
    mine : owns_turret ctx.actor_id (new_turret ctx effect) ≡ true
    mine = unfold owns_turret is_turret in text_eq_self ctx.actor_id

    kept : List PersistentObject
    kept = filter (λ o. not (owns_turret ctx.actor_id o)) ctx.state.objects

    one :
        filter (owns_turret ctx.actor_id) (kept ++ new_turret ctx effect ∷ [])
        ≡ new_turret ctx effect ∷ []
    one =
        filter-append (owns_turret ctx.actor_id) kept (new_turret ctx effect ∷ [])
        ∙ rw (filter-filter-not (owns_turret ctx.actor_id) ctx.state.objects, mine) refl

    others :
        filter (λ o. not (owns_turret ctx.actor_id o)) (kept ++ new_turret ctx effect ∷ []) ≡ kept
    others =
        filter-append (λ o. not (owns_turret ctx.actor_id o)) kept (new_turret ctx effect ∷ [])
        ∙ rw (filter-filter (λ o. not (owns_turret ctx.actor_id o)) ctx.state.objects, mine)
            (append-nil kept)
