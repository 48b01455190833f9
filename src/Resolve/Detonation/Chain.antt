-- ===== src/Resolve/Detonation/Chain.antt =====
-- The chain of detonations of crates/db-sim-core/src/resolve/objects.rs comes to an end.
use dungeon_barrage.Base.{
  ℕ, zero, suc, ◌≡◌, ◌≤◌, ◌<◌, ◌∙◌, refl, ap, inl, inr, Bool, true, false, ◌||◌, List, [], ◌∷◌, map,
  All, All-map, if◌then◌else◌, ltb, ◌==◌, ==_iff, length, ℤ, arith, Bool-cases, Option-cases,
}
use dungeon_barrage.Fixed.{FixedPoint}
use dungeon_barrage.Resolve.{ResolveContext}
use dungeon_barrage.Resolve.Detonation.{
  Knives, position_of, contains, insert_number, add_knives, is_set_off, detonate_first,
  detonate_pending, triggered_by,
}

abbrev pub keys : Knives → List ℕ
keys knives = map (λ k. k.0) knives

pub contains-insert :
    (m n : ℕ) (set : List ℕ) → contains m (insert_number n set) ≡ ((n == m) || contains m set)
unfolding insert_number
contains-insert m n [] = refl
contains-insert m n (k ∷ ks) =
    let ih = contains-insert m n ks in
    elim (Bool-cases (n == k)) [
      | inl same ↦ rw same (ground (arith, same))
      | inr other ↦ elim (Bool-cases (ltb n k)) [
        | inl below ↦ rw (other, below) refl
        | inr above ↦ rw (other, above) (ground (arith, ih))
      ]
    ]

-- A `BTreeSet` of numbers ascends.
abbrev pub Ascending : List ℕ → Type 0
Ascending [] = Unit
Ascending (n ∷ ns) = All (λ m. n < m) ns × Ascending ns

pub insert-All {κ} :
    (P : ℕ → Type κ) (n : ℕ) (set : List ℕ) → P n → All P set → All P (insert_number n set)
unfolding insert_number
insert-All P n [] p h = (p, tt)
insert-All P n (m ∷ ms) p h = elim (Bool-cases (n == m)) [
  | inl same ↦ rw same h
  | inr other ↦ elim (Bool-cases (ltb n m)) [
    | inl below ↦ rw (other, below) (p, h)
    | inr above ↦ rw (other, above) (h.0, insert-All P n ms p h.1)
  ]
]

pub insert-Ascending : (n : ℕ) (set : List ℕ) → Ascending set → Ascending (insert_number n set)
unfolding insert_number
insert-Ascending n [] h = (tt, tt)
insert-Ascending n (m ∷ ms) h = elim (Bool-cases (n == m)) [
  | inl same ↦ rw same h
  | inr other ↦ elim (Bool-cases (ltb n m)) [
    | inl below ↦
        rw (other, below)
          ((grind (arith, below), All-map ms (λ k lt. grind (arith, below, lt)) h.0), h)
    | inr above ↦
        rw (other, above)
          (
            insert-All (λ k. m < k) n ms (ground (arith, other, above)) h.0,
            insert-Ascending n ms h.1,
          )
  ]
]

-- The numbers of a list that are not in a set.
abbrev pub left : List ℕ → List ℕ → ℕ
left gone [] = 0
left gone (k ∷ ks) = if contains k gone then left gone ks else suc (left gone ks)

pub left-none : (knives : Knives) → left [] (keys knives) ≡ length knives
left-none [] = refl
left-none (k ∷ ks) = ap suc (left-none ks)

left-le : (n : ℕ) (gone ks : List ℕ) → left (insert_number n gone) ks ≤ left gone ks
left-le n gone [] = omega arith
left-le n gone (k ∷ ks) = rw (contains-insert k n gone) (ground (arith, left-le n gone ks))

pub left-lt :
    (n : ℕ) (gone ks : List ℕ)
    → contains n gone ≡ false
    → contains n ks ≡ true
    → left (insert_number n gone) ks < left gone ks
left-lt n gone [] fresh h = cc
left-lt n gone (k ∷ ks) fresh h = elim (Bool-cases (k == n)) [
  | inl same ↦
      let e : k ≡ n = (==_iff k n).0 same in
      let at : contains k gone ≡ false = ap (λ j. contains j gone) e ∙ fresh in
      rw (contains-insert k n gone) (ground (arith, at, e, left-le n gone ks))
  | inr other ↦
      rw (contains-insert k n gone)
        (ground (arith, left-lt n gone ks fresh (ground (arith, other, h)), left-le n gone ks))
]

module _ (joins : ℕ × FixedPoint → Bool) where
  pub add_knives-All {κ} :
      (P : ℕ → Type κ) (knives : Knives) (set : List ℕ)
      → All (λ k. joins k ≡ true → P k.0) knives
      → All P set
      → All P (add_knives joins knives set)
  unfolding add_knives
  add_knives-All P [] set f h = h
  add_knives-All P (k ∷ ks) set f h = elim (Bool-cases (joins k)) [
    | inl in' ↦
        rw in' (add_knives-All P ks (insert_number k.0 set) f.1 (insert-All P k.0 set (f.0 in') h))
    | inr out ↦ rw out (add_knives-All P ks set f.1 h)
  ]

  pub add_knives-Ascending :
      (knives : Knives) (set : List ℕ) → Ascending set → Ascending (add_knives joins knives set)
  unfolding add_knives
  add_knives-Ascending [] set h = h
  add_knives-Ascending (k ∷ ks) set h = elim (Bool-cases (joins k)) [
    | inl in' ↦
        rw in' (add_knives-Ascending ks (insert_number k.0 set) (insert-Ascending k.0 set h))
    | inr out ↦ rw out (add_knives-Ascending ks set h)
  ]

weaken-keys :
    (k : ℕ) (knives all' : Knives)
    → All (λ j. contains j.0 (keys all') ≡ true) knives
    → All (λ j. contains j.0 (k ∷ keys all') ≡ true) knives
weaken-keys k knives all' h = All-map knives (λ j e. ground (arith, e)) h

pub keys-contain : (knives : Knives) → All (λ k. contains k.0 (keys knives) ≡ true) knives
keys-contain [] = tt
keys-contain (k ∷ ks) = (ground arith, weaken-keys k.0 ks ks (keys-contain ks))

-- The pending knives ascend; they are on the field, and have not gone off.
abbrev pub IsReady : List ℕ → List ℕ → ℕ → Type 0
IsReady ks gone m = (contains m gone ≡ false) × (contains m ks ≡ true)

abbrev pub AreReady : List ℕ → List ℕ → List ℕ → Type 0
AreReady ks gone pending = Ascending pending × All (IsReady ks gone) pending

still-IsReady :
    (ks gone : List ℕ) (n m : ℕ) → n < m → IsReady ks gone m → IsReady ks (insert_number n gone) m
still-IsReady ks gone n m lt h = (contains-insert m n gone ∙ ground (arith, lt, h.0), h.1)

still-AreReady :
    (ks gone pending : List ℕ) (n : ℕ)
    → AreReady ks gone (n ∷ pending)
    → AreReady ks (insert_number n gone) pending
still-AreReady ks gone [] n h = (tt, tt)
still-AreReady ks gone (m ∷ ms) n h =
    let rest = still-AreReady ks gone ms n ((h.0.0.1, h.0.1.1), (h.1.0, h.1.1.1)) in
    (h.0.1, (still-IsReady ks gone n m h.0.0.0 h.1.1.0, rest.1))

module _ (radius : ℤ) (damage cells : ℕ) (knives : Knives) where
  set_off-IsReady :
      (n : ℕ) (position : FixedPoint) (gone : List ℕ)
      → All
          (λ k. is_set_off n position radius gone k ≡ true → IsReady (keys knives) gone k.0)
          knives
  set_off-IsReady n position gone =
      All-map knives (λ k e h. (ground (arith, h), e)) (keys-contain knives)

  pub detonate_first-AreReady :
      (ctx : ResolveContext) (n : ℕ) (pending gone : List ℕ)
      → AreReady (keys knives) gone (n ∷ pending)
      → let b = detonate_first radius damage cells knives ctx n pending gone in
        AreReady (keys knives) b.gone b.pending
        × (left b.gone (keys knives) < left gone (keys knives))
  unfolding detonate_first
  detonate_first-AreReady ctx n pending gone h =
      let rest = still-AreReady (keys knives) gone pending n h in
      let fewer = left-lt n gone (keys knives) h.1.0.0 h.1.0.1 in
      elim (Option-cases (position_of n knives)) [
        | inl none' ↦ rw (h.1.0.0, none') (rest, fewer)
        | inr (p, e) ↦
            let joins = is_set_off n p radius (insert_number n gone) in
            rw (h.1.0.0, e)
              (
                (
                  add_knives-Ascending joins knives pending rest.0,
                  add_knives-All joins (IsReady (keys knives) (insert_number n gone)) knives pending
                      (set_off-IsReady n p (insert_number n gone)) rest.1,
                ),
                fewer,
              )
      ]

  -- With as much fuel as there are knives left, none is pending in the end.
  pub detonate_pending-ends :
      (fuel : ℕ) (ctx : ResolveContext) (pending gone : List ℕ)
      → AreReady (keys knives) gone pending
      → left gone (keys knives) ≤ fuel
      → (detonate_pending fuel radius damage cells knives ctx pending gone).pending ≡ []
  unfolding detonate_pending
  detonate_pending-ends zero ctx [] gone h le = refl
  detonate_pending-ends (suc fuel) ctx [] gone h le = refl
  detonate_pending-ends zero ctx (n ∷ pending) gone h le =
      let fewer = left-lt n gone (keys knives) h.1.0.0 h.1.0.1 in absurd (omega (arith, fewer, le))
  detonate_pending-ends (suc fuel) ctx (n ∷ pending) gone h le =
      let b = detonate_first radius damage cells knives ctx n pending gone in
      let step = detonate_first-AreReady ctx n pending gone h in
      detonate_pending-ends fuel b.context b.pending b.gone step.0 (omega (arith, step.1, le))

All-nothing :
    (ms : List ℕ) (ks : List ℕ) → All (λ m. contains m ks ≡ true) ms → All (IsReady ks []) ms
All-nothing ms ks h = All-map ms (λ m e. (refl, e)) h

-- The loop from a landing knife that is on the field and the knives that it triggers, on as much fuel as
-- there are knives, ends with none pending.
pub detonations-end :
    (radius : ℤ) (damage cells : ℕ) (knives : Knives) (ctx : ResolveContext) (landing : ℕ)
    (position : FixedPoint)
    → contains landing (keys knives) ≡ true
    → (detonate_pending
        (length knives)
        radius
        damage
        cells
        knives
        ctx
        (insert_number landing (triggered_by landing position knives))
        []).pending
      ≡ []
unfolding triggered_by
detonations-end radius damage cells knives ctx landing position h =
    let first = triggered_by landing position knives in
    let known : All (λ m. contains m (keys knives) ≡ true) first =
      add_knives-All _ (λ m. contains m (keys knives) ≡ true) knives []
        (All-map knives (λ k e _. e) (keys-contain knives)) tt in
    detonate_pending-ends radius damage cells knives (length knives) ctx
      (insert_number landing first) []
      (
        insert-Ascending landing first (add_knives-Ascending _ knives [] tt),
        All-nothing (insert_number landing first) (keys knives)
            (insert-All (λ m. contains m (keys knives) ≡ true) landing first h known),
      )
      (let all' = left-none knives in omega (arith, all'))
