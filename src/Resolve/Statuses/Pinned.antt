-- ===== src/Resolve/Statuses/Pinned.antt =====
-- A lockdown of crates/db-sim-core/src/resolve/status.rs, and what it means to walking
-- (crates/db-sim-core/src/movement.rs) and to displacement (crates/db-sim-core/src/resolve/displacement.rs).
use dungeon_barrage.Base.{
  ◌≡◌, ◌∙◌, refl, ap, inl, inr, Bool, true, ◌&&◌, ◌||◌, List, [], ◌∷◌, ◌++◌, any, some, ltb, leb,
  arith, Bool-cases, Option-cases, Text,
}
use dungeon_barrage.Types.Ability.{lockdown, kind_eq, kind_rank}
use dungeon_barrage.Types.Player.{PlayerState, StatusEffect}
use dungeon_barrage.Types.State.{update_player}
use dungeon_barrage.Status.{apply_status, overwrite, insert_by_kind, sort_by_kind, find_kind}
use dungeon_barrage.Resolve.{ResolveContext}

any-insert :
    (p : StatusEffect → Bool) (s : StatusEffect) (ss : List StatusEffect)
    → any p (insert_by_kind s ss) ≡ (p s || any p ss)
unfolding insert_by_kind
any-insert p s [] = refl
any-insert p s (t ∷ ts) = elim (Bool-cases (leb (kind_rank s.kind) (kind_rank t.kind))) [
  | inl first ↦ rw first refl
  | inr later ↦ rw (later, any-insert p s ts) (ground arith)
]

any-sort : (p : StatusEffect → Bool) (ss : List StatusEffect) → any p (sort_by_kind ss) ≡ any p ss
unfolding sort_by_kind
any-sort p [] = refl
any-sort p (s ∷ ss) = any-insert p s (sort_by_kind ss) ∙ ap (λ b. p s || b) (any-sort p ss)

any-append :
    (p : StatusEffect → Bool) (ss : List StatusEffect) (s : StatusEffect)
    → p s ≡ true
    → any p (ss ++ s ∷ []) ≡ true
any-append p [] s h = rw h refl
any-append p (t ∷ ts) s h = rw (any-append p ts s h) (ground arith)

any-overwrite :
    (p : StatusEffect → Bool) (s t : StatusEffect) (ss : List StatusEffect)
    → find_kind s.kind ss ≡ some t
    → p s ≡ true
    → any p (overwrite s ss) ≡ true
unfolding overwrite find_kind
any-overwrite p s t [] f h = cc
any-overwrite p s t (u ∷ us) f h = elim (Bool-cases (kind_eq u.kind s.kind)) [
  | inl same ↦ rw (same, h) refl
  | inr other ↦ rw (other, any-overwrite p s t us (ground (arith, other)) h) (ground arith)
]

-- Whether a status pins its player.
abbrev pins : StatusEffect → Bool
pins status = kind_eq status.kind lockdown && ltb 0 status.turns_remaining

-- A status that passes a test is among those of the player whom it is applied to.
pub apply_status-any :
    (test : StatusEffect → Bool) (p : PlayerState) (s : StatusEffect)
    → test s ≡ true
    → any test (apply_status p s).0.statuses ≡ true
unfolding apply_status
apply_status-any test p s h = elim (Option-cases (find_kind s.kind p.statuses)) [
  | inl new ↦
      rw (apply_status, new) (any-sort test (p.statuses ++ s ∷ []) ∙ any-append test p.statuses s h)
  | inr (t, old) ↦
      rw (apply_status, old)
        (any-sort test (overwrite s p.statuses) ∙ any-overwrite test s t p.statuses old h)
]

pub id-apply_status : (s : StatusEffect) (p : PlayerState) → (apply_status p s).0.id ≡ p.id
unfolding apply_status
id-apply_status s p = elim (Option-cases (find_kind s.kind p.statuses)) [
  | inl new ↦ rw (apply_status, new) refl
  | inr (t, old) ↦ rw (apply_status, old) refl
]

-- The context after a status.
abbrev with_status : ResolveContext → Text → PlayerState → StatusEffect → ResolveContext
with_status ctx id p s = record ctx {
  state = update_player ctx.state id (λ q. (apply_status q s).0);
  status_changes = ctx.status_changes ++ (apply_status p s).1 ∷ [];
}
