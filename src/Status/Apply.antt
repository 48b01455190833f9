-- ===== src/Status/Apply.antt =====
-- Applying a status, in crates/db-sim-core/src/resolve/status.rs: one status of a kind, in order.
use dungeon_barrage.Base.{
  ◌<◌, ◌≡◌, ◌≢◌, inl, inr, true, List, [], ◌∷◌, ◌++◌, All, All-map, none, leb, ◌==◌, arith,
  Bool-cases, Option-cases,
}
use dungeon_barrage.Types.Ability.{EffectKind, kind_rank}
use dungeon_barrage.Types.Player.{PlayerState, StatusEffect}
use dungeon_barrage.Status.{overwrite, insert_by_kind, sort_by_kind, find_kind, apply_status}

-- One status of each kind, in the order of the kinds.
abbrev pub Ordered : List StatusEffect → Type 0
Ordered [] = Unit
Ordered (s ∷ ss) = All (λ t. kind_rank s.kind < kind_rank t.kind) ss × Ordered ss

-- No status of a kind.
abbrev Free : EffectKind → List StatusEffect → Type 0
Free k = All (λ t. kind_rank t.kind ≢ kind_rank k)

insert-All :
    (P : StatusEffect → Type 0) (s : StatusEffect) (ss : List StatusEffect)
    → P s
    → All P ss
    → All P (insert_by_kind s ss)
unfolding insert_by_kind
insert-All P s [] h a = (h, tt)
insert-All P s (t ∷ ts) h a = elim (Bool-cases (leb (kind_rank s.kind) (kind_rank t.kind))) [
  | inl le ↦ rw le (h, a)
  | inr gt ↦ rw gt (a.0, insert-All P s ts h a.1)
]

insert-Ordered :
    (s : StatusEffect) (ss : List StatusEffect)
    → Free s.kind ss
    → Ordered ss
    → Ordered (insert_by_kind s ss)
unfolding insert_by_kind
insert-Ordered s [] f o = (tt, tt)
insert-Ordered s (t ∷ ts) f o = elim (Bool-cases (leb (kind_rank s.kind) (kind_rank t.kind))) [
  | inl le ↦
      let lt : kind_rank s.kind < kind_rank t.kind = ground (arith, le, f.0) in
      rw le ((lt, All-map ts (λ u h. omega arith) o.0), o)
  | inr gt ↦ rw gt (insert-All _ s ts (ground (arith, gt)) o.0, insert-Ordered s ts f.1 o.1)
]

sort-Free : (k : EffectKind) (ss : List StatusEffect) → Free k ss → Free k (sort_by_kind ss)
unfolding sort_by_kind
sort-Free k [] f = tt
sort-Free k (s ∷ ss) f = insert-All _ s (sort_by_kind ss) f.0 (sort-Free k ss f.1)

-- Kinds that are pairwise distinct.
abbrev Separate : List StatusEffect → Type 0
Separate [] = Unit
Separate (s ∷ ss) = Free s.kind ss × Separate ss

sort-Ordered : (ss : List StatusEffect) → Separate ss → Ordered (sort_by_kind ss)
unfolding sort_by_kind
sort-Ordered [] h = tt
sort-Ordered (s ∷ ss) h =
    insert-Ordered s (sort_by_kind ss) (sort-Free s.kind ss h.0) (sort-Ordered ss h.1)

Separate-of_Ordered : (ss : List StatusEffect) → Ordered ss → Separate ss
Separate-of_Ordered [] o = tt
Separate-of_Ordered (s ∷ ss) o = (All-map ss (λ t h. omega arith) o.0, Separate-of_Ordered ss o.1)

overwrite-Free :
    (s : StatusEffect) (k : EffectKind) (ss : List StatusEffect)
    → kind_rank s.kind ≢ kind_rank k
    → Free k ss
    → Free k (overwrite s ss)
unfolding overwrite
overwrite-Free s k [] h f = tt
overwrite-Free s k (t ∷ ts) h f = elim (Bool-cases (kind_rank t.kind == kind_rank s.kind)) [
  | inl e ↦ rw e (h, f.1)
  | inr n ↦ rw n (f.0, overwrite-Free s k ts h f.1)
]

overwrite-Separate :
    (s : StatusEffect) (ss : List StatusEffect) → Separate ss → Separate (overwrite s ss)
unfolding overwrite
overwrite-Separate s [] h = tt
overwrite-Separate s (t ∷ ts) h = elim (Bool-cases (kind_rank t.kind == kind_rank s.kind)) [
  | inl e ↦ rw e (All-map ts (λ u n. ground (arith, e, n)) h.0, h.1)
  | inr n ↦ rw n (overwrite-Free s t.kind ts (ground (arith, n)) h.0, overwrite-Separate s ts h.1)
]

find_here :
    (k : EffectKind) (s : StatusEffect) (ss : List StatusEffect)
    → (kind_rank s.kind == kind_rank k) ≡ true
    → find_kind k (s ∷ ss) ≢ none
unfolding find_kind
find_here k s ss h e = ground (arith, h, e)

find-none : (k : EffectKind) (ss : List StatusEffect) → find_kind k ss ≡ none → Free k ss
unfolding find_kind
find-none k [] e = tt
find-none k (s ∷ ss) e = elim (Bool-cases (kind_rank s.kind == kind_rank k)) [
  | inl h ↦ absurd (find_here k s ss h e)
  | inr h ↦ (ground (arith, h), find-none k ss (rw h at e))
]

Free-append :
    (k : EffectKind) (s : StatusEffect) (ss : List StatusEffect)
    → kind_rank k ≢ kind_rank s.kind
    → Free k ss
    → Free k (ss ++ s ∷ [])
Free-append k s [] n f = (ground (arith, n), tt)
Free-append k s (t ∷ ts) n f = (f.0, Free-append k s ts n f.1)

append-Separate :
    (s : StatusEffect) (ss : List StatusEffect)
    → Free s.kind ss
    → Separate ss
    → Separate (ss ++ s ∷ [])
append-Separate s [] f h = (tt, tt)
append-Separate s (t ∷ ts) f h = (Free-append t.kind s ts f.0 h.0, append-Separate s ts f.1 h.1)

-- Applying a status keeps one status of each kind, in the order of the kinds.
pub apply_status-Ordered :
    (p : PlayerState) (s : StatusEffect)
    → Ordered p.statuses
    → Ordered (apply_status p s).0.statuses
unfolding apply_status
apply_status-Ordered p s o = elim (Option-cases (find_kind s.kind p.statuses)) [
  | inl e ↦
      rw (e, apply_status)
        (sort-Ordered _ (
          append-Separate s p.statuses (find-none s.kind p.statuses e)
            (Separate-of_Ordered p.statuses o)))
  | inr (t, e) ↦
      rw (e, apply_status)
        (sort-Ordered _ (overwrite-Separate s p.statuses (Separate-of_Ordered p.statuses o)))
]
