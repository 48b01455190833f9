-- ===== src/Resolve/Support/Bounds.antt =====
-- The effects of crates/db-sim-core/src/resolve/support.rs keep the health of every player within its
-- bounds.
use dungeon_barrage.Base.{
  ℕ, ◌-◌, ◌≤◌, ◌≡◌, ◌⊎◌, refl, ap, inl, inr, none, some, All, arith, Bool-cases, Option-cases, min,
  ◌==◌, ltb, Text, if◌then◌else◌,
}
use dungeon_barrage.Error.{ok}
use dungeon_barrage.Types.Ability.{SpecialEffect, heal, health_transfer, self_damage}
use dungeon_barrage.Types.Player.{PlayerState}
use dungeon_barrage.Types.State.{player}
use dungeon_barrage.Types.Lookup.{player-All, All-update_player}
use dungeon_barrage.Resolve.{ResolveContext, damage_entry, to_u16, add_u16}
use dungeon_barrage.Resolve.Support.{
  percent_to_hp, apply_heal, apply_backlash, resolve_heal, resolve_health_transfer,
  resolve_self_damage, transfer, sparable, receivable, resolve, resolve_kind, with_health,
}
use dungeon_barrage.Resolve.Support.Health.{Bounded, to_self, to_target}

abbrev AllBounded : ResolveContext → Type 0
AllBounded ctx = All Bounded ctx.state.players

write-Bounded :
    (ctx : ResolveContext) (id : Text) (f : PlayerState → ℕ) (p : PlayerState)
    → player ctx.state id ≡ some p
    → f p ≤ p.max_health
    → AllBounded ctx
    → AllBounded (with_health ctx id f)
write-Bounded ctx id f p found h k =
    All-update_player Bounded ctx.state id (λ q. record q { health = f q }) p found
      (h, (player-All Bounded ctx.state id p found k).1) k

apply_heal-Bounded :
    (ctx : ResolveContext) (id : Text) (amount : ℕ)
    → AllBounded ctx
    → AllBounded (apply_heal ctx id amount)
unfolding apply_heal damage_entry
apply_heal-Bounded ctx id amount h = elim (Bool-cases (amount == 0)) [
  | inl zero' ↦ rw zero' h
  | inr some' ↦ elim (Option-cases (player ctx.state id)) [
    | inl unknown ↦ rw (some', unknown) h
    | inr (p, found) ↦
        rw (some', found)
          (write-Bounded ctx id (λ q. add_u16 q.health (min amount (p.max_health - p.health))) p
            found (ground (arith, player-All Bounded ctx.state id p found h)) h)
  ]
]

apply_backlash-Bounded :
    (ctx : ResolveContext) (id : Text) (amount : ℕ)
    → AllBounded ctx
    → AllBounded (apply_backlash ctx id amount)
unfolding apply_backlash damage_entry
apply_backlash-Bounded ctx id amount h = elim (Bool-cases (amount == 0)) [
  | inl zero' ↦ rw zero' h
  | inr some' ↦ elim (Option-cases (player ctx.state id)) [
    | inl unknown ↦ rw (some', unknown) h
    | inr (p, found) ↦
        rw (some', found)
          (write-Bounded ctx id (λ q. q.health - amount) p found
            (ground (arith, player-All Bounded ctx.state id p found h)) h)
  ]
]

sparable_unknown : (ctx : ResolveContext) → player ctx.state ctx.actor_id ≡ none → sparable ctx ≡ 0
unfolding sparable
sparable_unknown ctx unknown = rw (sparable, unknown) refl

paid-Bounded :
    (ctx : ResolveContext) (n : ℕ) (p : PlayerState)
    → player ctx.state ctx.actor_id ≡ some p
    → AllBounded ctx
    → AllBounded (with_health ctx ctx.actor_id (λ actor. actor.health - n))
paid-Bounded ctx n p found h =
    write-Bounded ctx ctx.actor_id (λ actor. actor.health - n) p found
      (ground (arith, player-All Bounded ctx.state ctx.actor_id p found h)) h

-- The state after a transfer of whatever amount, if the amount of an unknown actor is zero.
transfer_of-Bounded :
    (ctx : ResolveContext) (id : Text) (n : ℕ)
    → n ≤ sparable ctx
    → AllBounded ctx
    → AllBounded (
        if ltb 0 n
        then apply_heal (with_health ctx ctx.actor_id (λ actor. actor.health - n)) id n
        else ctx)
transfer_of-Bounded ctx id n k h = elim (Bool-cases (ltb 0 n)) [
  | inl moved ↦ elim (Option-cases (player ctx.state ctx.actor_id)) [
    | inl unknown ↦ absurd (ground (arith, moved, k, sparable_unknown ctx unknown))
    | inr (p, found) ↦ rw moved (
        apply_heal-Bounded (with_health ctx ctx.actor_id (λ actor. actor.health - n)) id n
          (paid-Bounded ctx n p found h))
  ]
  | inr kept ↦ rw kept h
]

transfer-Bounded :
    (ctx : ResolveContext) (id : Text) (amount : ℕ)
    → AllBounded ctx
    → AllBounded (transfer ctx id amount)
unfolding transfer
transfer-Bounded ctx id amount h =
    transfer_of-Bounded ctx id (min (min amount (sparable ctx)) (receivable ctx id)) (omega arith) h

-- The effects of the family never fail, and keep every player's health within 16 bits and the maximum.
pub resolve-Bounded :
    (ctx : ResolveContext) (effect : SpecialEffect)
    → (effect.kind ≡ heal) ⊎ ((effect.kind ≡ health_transfer) ⊎ (effect.kind ≡ self_damage))
    → All Bounded ctx.state.players
    → (after : ResolveContext) × (resolve ctx effect ≡ ok after) × All Bounded after.state.players
unfolding resolve resolve_kind resolve_heal resolve_self_damage resolve_health_transfer
resolve-Bounded ctx effect (inl kind) h = (
  _,
  ap (λ k. resolve_kind k ctx effect) kind,
  apply_heal-Bounded ctx _ (to_u16 effect.magnitude) h,
)
resolve-Bounded ctx effect (inr (inl kind)) h = elim (Option-cases ctx.primary_target_id) [
  | inl alone ↦ (
    _,
    to_self ctx effect kind alone,
    apply_heal-Bounded ctx ctx.actor_id (to_u16 effect.magnitude) h,
  )
  | inr (id, target) ↦
      (_, to_target ctx effect id kind target, transfer-Bounded ctx id (to_u16 effect.magnitude) h)
]
resolve-Bounded ctx effect (inr (inr kind)) h = (
  _,
  ap (λ k. resolve_kind k ctx effect) kind,
  apply_backlash-Bounded ctx ctx.actor_id (percent_to_hp effect.magnitude) h,
)
