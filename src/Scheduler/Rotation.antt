-- ===== src/Scheduler/Rotation.antt =====
-- Whose turn comes next, in crates/db-sim-core/src/scheduler.rs.
use dungeon_barrage.Base.{
  ℕ, suc, ◌%◌, ◌<◌, ◌≡◌, refl, ap, subst, ◌⊎◌, inl, inr, true, false, List, [], ◌∷◌, Option, none,
  some, if◌then◌else◌, ◌==◌, arith, length, get_elem?, get_elem?-In, In, All, All-map, Bool-cases,
  Text, text_eq, text_lt, text_eq→eq, text_lt_irrefl,
}
use native.Mathlib.Nat.{mod-eq_of_lt, mod-lt, mod_self}
use dungeon_barrage.Types.State.{SimulationState}
use dungeon_barrage.Scheduler.{living_ids, insert_text, sort_texts, place_after, next_active_player}
use dungeon_barrage.Scheduler.Sort.{
  Distinct, Strict, text_lt_asym, text_lt_of_ne, All-of_sort, Strict-sort, In-of_sort,
}

-- The rotation: the name that follows the key most closely, or the first name if none follows.
pub data NextIs (key : Text) (ids : List Text) : Option Text → Type 0 where
  nobody : ids ≡ [] → NextIs key ids none
  following :
      (id : Text)
      → In id ids
      → text_lt key id ≡ true
      → All (λ t. (text_lt key t ≡ false) ⊎ (text_lt t id ≡ false)) ids
      → NextIs key ids (some id)
  wrapped :
      (id : Text)
      → In id ids
      → All (λ t. text_lt key t ≡ false) ids
      → All (λ t. text_lt t id ≡ false) ids
      → NextIs key ids (some id)

-- Where the search lands in a strictly sorted list.
data Place (key : Text) (ts : List Text) : ℕ → Type 0 where
  past : All (λ t. text_lt key t ≡ false) ts → Place key ts (length ts)
  at :
      (n : ℕ) (id : Text)
      → n < length ts
      → get_elem? ts n ≡ some id
      → In id ts
      → text_lt key id ≡ true
      → All (λ t. (text_lt key t ≡ false) ⊎ (text_lt t id ≡ false)) ts
      → Place key ts n

-- The head of a strictly sorted list is at or past every name that is not above it.
head_least : (t : Text) (ts : List Text) → Strict (t ∷ ts) → All (λ u. text_lt u t ≡ false) (t ∷ ts)
head_least t ts h = (text_lt_irrefl t, All-map ts (λ u k. text_lt_asym t u k) h.0)

Place-cons :
    (key t : Text) (ts : List Text) (n : ℕ)
    → text_lt key t ≡ false
    → Place key ts n
    → Place key (t ∷ ts) (suc n)
Place-cons key t ts _ h (past a) = past (h, a)
Place-cons key t ts _ h (at n id l g m k a) = at (suc n) id (omega arith) g (inr m) k (inl h, a)

Place-head :
    (key t : Text) (ts : List Text) → text_lt key t ≡ true → Strict (t ∷ ts) → Place key (t ∷ ts) 0
Place-head key t ts k h =
    at 0 t (omega arith) refl (inl refl) k (All-map (t ∷ ts) (λ u l. inr l) (head_least t ts h))

Place-just_after : (t : Text) (ts : List Text) → Strict (t ∷ ts) → Place t (t ∷ ts) 1
Place-just_after t [] h = past (text_lt_irrefl t, tt)
Place-just_after t (u ∷ us) h =
    at 1 u (omega arith) refl (inr (inl refl)) h.0.0
      (inl (text_lt_irrefl t), All-map (u ∷ us) (λ v l. inr l) (head_least u us h.1))

place_after-Place : (key : Text) (ts : List Text) → Strict ts → Place key ts (place_after key ts)
unfolding place_after
place_after-Place key [] h = past tt
place_after-Place key (t ∷ ts) h = elim (Bool-cases (text_lt t key)) [
  | inl before ↦
      rw before (Place-cons key t ts _ (text_lt_asym t key before) (place_after-Place key ts h.1))
  | inr after ↦ elim (Bool-cases (text_eq t key)) [
    | inl same ↦
        rw (after, same)
          (subst (λ k. Place k (t ∷ ts) 1) (text_eq→eq t key same) (Place-just_after t ts h))
    | inr other ↦ rw (after, other) (Place-head key t ts (text_lt_of_ne t key other after) h)
  ]
]

length-insert : (s : Text) (ts : List Text) → length (insert_text s ts) ≡ suc (length ts)
unfolding insert_text
length-insert s [] = refl
length-insert s (t ∷ ts) = ground (arith, length-insert s ts)

pub length-sort : (ts : List Text) → length (sort_texts ts) ≡ length ts
unfolding sort_texts
length-sort [] = refl
length-sort (t ∷ ts) = omega (arith, length-insert t (sort_texts ts), length-sort ts)

-- The choice that `next_active_player` makes among the sorted names.
abbrev pub choose : Text → List Text → Option Text
choose key ts = if length ts == 0 then none else get_elem? ts (place_after key ts % length ts)

nonempty : (n : ℕ) → (suc n == 0) ≡ false
nonempty n = ground arith

-- Among at least one name there is a choice, and it is one of them.
pub choose_total :
    (key : Text) (ts : List Text)
    → 0 < length ts
    → (id : Text) × (choose key ts ≡ some id) × In id ts
choose_total key [] h = elim h [ ]
choose_total key (t ∷ ts) h =
    let (id, e, m) =
      get_elem?-In (t ∷ ts) (place_after key (t ∷ ts) % suc (length ts)) (mod-lt _ (omega arith)) in
    (id, rw (nonempty (length ts)) e, m)

choose-NextIs : (key : Text) (ts : List Text) → Strict ts → NextIs key ts (choose key ts)
choose-NextIs key [] h = nobody refl
choose-NextIs key (t ∷ ts) h =
    rw (nonempty (length ts)) (pick (place_after key (t ∷ ts)) (place_after-Place key (t ∷ ts) h))
  where
    pick :
        (n : ℕ)
        → Place key (t ∷ ts) n
        → NextIs key (t ∷ ts) (get_elem? (t ∷ ts) (n % suc (length ts)))
    pick _ (past a) =
        let e = mod_self (suc (length ts)) in rw e (wrapped t (inl refl) a (head_least t ts h))
    pick _ (at n id l g m k a) =
        rw (mod-eq_of_lt {n = n} {m = suc (length ts)} l, g) (following id m k a)

NextIs-of_sort :
    (key : Text) (ids : List Text) (o : Option Text)
    → NextIs key (sort_texts ids) o
    → NextIs key ids o
NextIs-of_sort key ids _ (nobody e) = nobody (empty_of_sort ids e)
  where
    empty_of_sort : (ts : List Text) → sort_texts ts ≡ [] → ts ≡ []
    empty_of_sort [] e = refl
    empty_of_sort (t ∷ ts) e = absurd (omega (arith, ap length e, length-sort (t ∷ ts)))
NextIs-of_sort key ids _ (following id m k a) =
    following id (In-of_sort id ids m) k (All-of_sort _ ids a)
NextIs-of_sort key ids _ (wrapped id m k a) =
    wrapped id (In-of_sort id ids m) (All-of_sort _ ids k) (All-of_sort _ ids a)

-- With distinct names of living players, the next active player is the living player whose name
-- follows the active one most closely, or the first of them all if none follows; there is none
-- exactly if nobody is alive. The active player may be dead or unnamed.
pub next_active_player-NextIs :
    (s : SimulationState)
    → Distinct (living_ids s.players)
    → NextIs s.active_player_id (living_ids s.players) (next_active_player s)
unfolding next_active_player
next_active_player-NextIs s d =
    NextIs-of_sort s.active_player_id (living_ids s.players) _
      (choose-NextIs s.active_player_id (sort_texts (living_ids s.players)) (Strict-sort _ d))
