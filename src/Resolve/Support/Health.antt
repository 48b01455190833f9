-- ===== src/Resolve/Support/Health.antt =====
-- What healing, transfers and backlash of crates/db-sim-core/src/resolve/support.rs do to the health
-- of the players and to what is reported of it.
use dungeon_barrage.Base.{
  ℕ, ◌+◌, ◌-◌, ◌^◌, ◌<◌, ◌≤◌, ◌≡◌, ◌∙◌, refl, ap, inl, inr, false, ◌||◌, none, some, arith,
  Bool-cases, Option-cases, min, ◌==◌, ltb, if◌then◌else◌, Text, text_eq, text_eq_sym, ℤ,
}
use dungeon_barrage.Error.{SimResult, ok}
use dungeon_barrage.Types.Ability.{SpecialEffect, health_transfer, self_damage}
use dungeon_barrage.Types.Player.{PlayerState, is_eliminated}
use dungeon_barrage.Types.State.{player}
use dungeon_barrage.Types.Lookup.{player-update_player, player-update_player_other}
use dungeon_barrage.Types.Outcome.{DamageEvent}
use dungeon_barrage.Resolve.{ResolveContext, damage_entry, to_u16, add_u16}
use dungeon_barrage.Resolve.Events.{
  event_of, Ascending, event_of-update_entry, update_entry-Ascending,
}
use dungeon_barrage.Resolve.Support.{
  percent_to_hp, apply_heal, apply_backlash, resolve_health_transfer, resolve_self_damage, transfer,
  sparable, receivable, resolve, resolve_kind, with_health,
}

-- A 16-bit health, never above its maximum.
abbrev pub Bounded : PlayerState → Type 0
Bounded p = (p.health ≤ p.max_health) × (p.max_health < 2 ^ 16)

to_u16-lt : (m : ℤ) → to_u16 m < 2 ^ 16
to_u16-lt m = ground arith

-- Healing a bounded player: what it adds, and what it reports.
apply_heal_lem :
    (ctx : ResolveContext) (id : Text) (p : PlayerState) (amount : ℕ)
    → player ctx.state id ≡ some p
    → Bounded p
    → player (apply_heal ctx id amount).state id
      ≡ some (record p { health = min (p.health + amount) p.max_health })
unfolding apply_heal damage_entry
apply_heal_lem ctx id p amount found h = elim (Bool-cases (amount == 0)) [
  | inl zero' ↦ rw zero' (
      found
      ∙ ap some (with_same p (min (p.health + amount) p.max_health) (ground (arith, zero', h))))
  | inr some' ↦
      rw (some', found)
        (player-update_player id
            (λ q. record q { health = add_u16 q.health (min amount (p.max_health - p.health)) })
            (λ q. refl) ctx.state p found
          ∙ ap (λ n. some (record p { health = n })) (ground (arith, h)))
]
  where
    with_same : (p : PlayerState) (n : ℕ) → p.health ≡ n → p ≡ record p { health = n }
    with_same p n e = ap (λ k. record p { health = k }) e

apply_heal_other :
    (ctx : ResolveContext) (id other_id : Text) (amount : ℕ)
    → text_eq id other_id ≡ false
    → player (apply_heal ctx id amount).state other_id ≡ player ctx.state other_id
unfolding apply_heal damage_entry
apply_heal_other ctx id other_id amount other = elim (Bool-cases (amount == 0)) [
  | inl zero' ↦ rw zero' refl
  | inr some' ↦ elim (Option-cases (player ctx.state id)) [
    | inl unknown ↦ rw (some', unknown) refl
    | inr (p, found) ↦
        rw (some', found)
          (player-update_player_other id
            (λ q. record q { health = add_u16 q.health (min amount (p.max_health - p.health)) })
            (λ q. refl) ctx.state other_id other)
  ]
]

-- What a transfer moves: no more than asked for, than leaves the actor one point, and than the target lacks.
abbrev pub transferable : ℕ → PlayerState → PlayerState → ℕ
transferable magnitude actor target =
    min (min magnitude (actor.health - 1)) (target.max_health - target.health)

sparable_found :
    (ctx : ResolveContext) (a : PlayerState)
    → player ctx.state ctx.actor_id ≡ some a
    → sparable ctx ≡ a.health - 1
unfolding sparable
sparable_found ctx a found = rw (sparable, found) refl

receivable_found :
    (ctx : ResolveContext) (id : Text) (b : PlayerState)
    → player ctx.state id ≡ some b
    → receivable ctx id ≡ b.max_health - b.health
unfolding receivable
receivable_found ctx id b found = rw (receivable, found) refl

-- The actor after the payment.
abbrev debited : ResolveContext → ℕ → ResolveContext
debited ctx n = with_health ctx ctx.actor_id (λ actor. actor.health - n)

module _ (ctx : ResolveContext) (target_id : Text) (a b : PlayerState) (magnitude : ℕ)
    (fa : player ctx.state ctx.actor_id ≡ some a) (fb : player ctx.state target_id ≡ some b)
    (other : text_eq ctx.actor_id target_id ≡ false) (h : Bounded b) where
  transfer_eq : transfer ctx target_id magnitude ≡ (
      if ltb 0 (transferable magnitude a b)
      then apply_heal
          (debited ctx (transferable magnitude a b))
          target_id
          (transferable magnitude a b)
      else ctx)
  unfolding transfer
  transfer_eq = ap (λ n. if ltb 0 n then apply_heal (debited ctx n) target_id n else ctx) amount
    where
      amount :
          min (min magnitude (sparable ctx)) (receivable ctx target_id) ≡ transferable magnitude a b
      amount = rw (sparable_found ctx a fa, receivable_found ctx target_id b fb) refl

  debited_actor :
      (n : ℕ)
      → player (debited ctx n).state ctx.actor_id ≡ some (record a { health = a.health - n })
  debited_actor n =
      player-update_player ctx.actor_id (λ q. record q { health = q.health - n }) (λ q. refl)
        ctx.state a fa

  debited_target : (n : ℕ) → player (debited ctx n).state target_id ≡ some b
  debited_target n =
      player-update_player_other ctx.actor_id (λ q. record q { health = q.health - n }) (λ q. refl)
        ctx.state target_id other
      ∙ fb

  -- A transfer between two players moves the transferable health from the actor to the target.
  transfer_players :
      (player (transfer ctx target_id magnitude).state ctx.actor_id
        ≡ some (record a { health = a.health - transferable magnitude a b }))
      × (player (transfer ctx target_id magnitude).state target_id
          ≡ some (record b { health = b.health + transferable magnitude a b }))
  transfer_players =
      let n = transferable magnitude a b in
      elim (Bool-cases (ltb 0 (transferable magnitude a b))) [
        | inl moved ↦
            rw (transfer_eq, moved)
              (
                apply_heal_other (debited ctx n) target_id ctx.actor_id n
                      (text_eq_sym ctx.actor_id target_id other)
                    ∙ debited_actor n,
                apply_heal_lem (debited ctx n) target_id b n (debited_target n) h
                    ∙ ap (λ k. some (record b { health = k })) (ground (arith, h)),
              )
        | inr kept ↦
            rw (transfer_eq, kept)
              (
                fa ∙ ap (λ k. some (record a { health = k })) (ground (arith, kept)),
                fb ∙ ap (λ k. some (record b { health = k })) (ground (arith, kept)),
              )
      ]

pub to_target :
    (ctx : ResolveContext) (effect : SpecialEffect) (target_id : Text)
    → effect.kind ≡ health_transfer
    → ctx.primary_target_id ≡ some target_id
    → resolve ctx effect ≡ ok (transfer ctx target_id (to_u16 effect.magnitude))
unfolding resolve resolve_kind resolve_health_transfer
to_target ctx effect target_id kind target =
    ap (λ k. resolve_kind k ctx effect) kind
    ∙ ap
        (λ o. elim o as (λ _. SimResult ResolveContext) [
          | none ↦ ok (apply_heal ctx ctx.actor_id (to_u16 effect.magnitude))
          | some id ↦ ok (transfer ctx id (to_u16 effect.magnitude))
        ])
        target

pub to_self :
    (ctx : ResolveContext) (effect : SpecialEffect)
    → effect.kind ≡ health_transfer
    → ctx.primary_target_id ≡ none
    → resolve ctx effect ≡ ok (apply_heal ctx ctx.actor_id (to_u16 effect.magnitude))
unfolding resolve resolve_kind resolve_health_transfer
to_self ctx effect kind alone =
    ap (λ k. resolve_kind k ctx effect) kind
    ∙ ap
        (λ o. elim o as (λ _. SimResult ResolveContext) [
          | none ↦ ok (apply_heal ctx ctx.actor_id (to_u16 effect.magnitude))
          | some id ↦ ok (transfer ctx id (to_u16 effect.magnitude))
        ])
        alone

-- A transfer to another, bounded player succeeds: the actor loses what the target gains, that is as
-- much as is asked for, as leaves the actor one point and as the target lacks.
pub resolve-transfer :
    (ctx : ResolveContext) (effect : SpecialEffect) (target_id : Text) (a b : PlayerState)
    → effect.kind ≡ health_transfer
    → ctx.primary_target_id ≡ some target_id
    → player ctx.state ctx.actor_id ≡ some a
    → player ctx.state target_id ≡ some b
    → text_eq ctx.actor_id target_id ≡ false
    → Bounded b
    → (after : ResolveContext) × (n : ℕ) × (resolve ctx effect ≡ ok after)
      × (n ≡ transferable (to_u16 effect.magnitude) a b)
      × (player after.state ctx.actor_id ≡ some (record a { health = a.health - n }))
      × (player after.state target_id ≡ some (record b { health = b.health + n }))
      × (a.health - n + (b.health + n) ≡ a.health + b.health)
      × (b.health + n ≤ b.max_health)
      × (min 1 a.health ≤ a.health - n)
resolve-transfer ctx effect target_id a b kind target fa fb other h =
    let n = transferable (to_u16 effect.magnitude) a b in
    let (actor_after, target_after) =
      transfer_players ctx target_id a b (to_u16 effect.magnitude) fa fb other h in
    (
      transfer ctx target_id (to_u16 effect.magnitude),
      n,
      to_target ctx effect target_id kind target,
      refl,
      actor_after,
      target_after,
      ground (arith, h),
      ground (arith, h),
      ground arith,
    )

-- What a backlash of an amount on a player adds to their event.
abbrev pub with_backlash : PlayerState → ℕ → DamageEvent → DamageEvent
with_backlash a amount e = record e {
  backlash = add_u16 e.backlash (min amount a.health);
  eliminated = e.eliminated || (a.health - amount == 0);
}

apply_backlash_lem :
    (ctx : ResolveContext) (id : Text) (a : PlayerState) (amount : ℕ)
    → player ctx.state id ≡ some a
    → 0 < amount
    → Ascending ctx.damage
    → (player (apply_backlash ctx id amount).state id
        ≡ some (record a { health = a.health - amount }))
      × (event_of id (apply_backlash ctx id amount).damage
          ≡ with_backlash a amount (event_of id ctx.damage))
      × Ascending (apply_backlash ctx id amount).damage
unfolding apply_backlash damage_entry is_eliminated
apply_backlash_lem ctx id a amount found positive h =
    let some' : (amount == 0) ≡ false = ground (arith, positive) in
    rw (some', found)
      (
        player-update_player id (λ q. record q { health = q.health - amount }) (λ q. refl) ctx.state
            a found,
        event_of-update_entry id (with_backlash a amount) ctx.damage h,
        update_entry-Ascending id (with_backlash a amount) ctx.damage h,
      )

-- A positive backlash takes its points from the actor, not below zero; their event gains what it took,
-- and is marked as an elimination if nothing is left.
pub resolve-backlash :
    (ctx : ResolveContext) (effect : SpecialEffect) (a : PlayerState)
    → effect.kind ≡ self_damage
    → player ctx.state ctx.actor_id ≡ some a
    → 0 < percent_to_hp effect.magnitude
    → Ascending ctx.damage
    → (after : ResolveContext) × (resolve ctx effect ≡ ok after)
      × (player after.state ctx.actor_id
          ≡ some (record a { health = a.health - percent_to_hp effect.magnitude }))
      × (event_of ctx.actor_id after.damage
          ≡ with_backlash a (percent_to_hp effect.magnitude) (event_of ctx.actor_id ctx.damage))
      × Ascending after.damage
unfolding resolve resolve_kind resolve_self_damage
resolve-backlash ctx effect a kind found positive h =
    let (hurt, event, keys) =
      apply_backlash_lem ctx ctx.actor_id a (percent_to_hp effect.magnitude) found positive h in
    (
      apply_backlash ctx ctx.actor_id (percent_to_hp effect.magnitude),
      ap (λ k. resolve_kind k ctx effect) kind,
      hurt,
      event,
      keys,
    )
