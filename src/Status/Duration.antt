-- ===== src/Status/Duration.antt =====
-- How long a status lasts, in crates/db-sim-core/src/resolve/status.rs.
use dungeon_barrage.Base.{
  ℕ, zero, suc, ◌-◌, ◌≡◌, refl, ap, ◌∙◌, sym, inl, inr, Bool, false, ◌||◌, List, [], ◌∷◌, map,
  filter, if◌then◌else◌, ltb, arith, Bool-cases,
}
use dungeon_barrage.Types.Player.{StatusEffect}
use dungeon_barrage.Status.{is_charge, tick_status, keeps, tick_list}

-- A status after `k` ticks, and whether it is still there.
abbrev pub aged : ℕ → StatusEffect → StatusEffect
aged k s = if is_charge s then s else record s { turns_remaining = s.turns_remaining - k }

abbrev pub outlasts : ℕ → StatusEffect → Bool
outlasts k s = is_charge s || ltb k s.turns_remaining

pub ticks : ℕ → List StatusEffect → List StatusEffect
ticks zero ss = ss
ticks (suc k) ss = tick_list (ticks k ss)

is_charge-turns :
    (s : StatusEffect) (n : ℕ) → is_charge (record s { turns_remaining = n }) ≡ is_charge s
unfolding is_charge
is_charge-turns s n = refl

is_charge-aged : (k : ℕ) (s : StatusEffect) → is_charge (aged k s) ≡ is_charge s
is_charge-aged k s = elim (Bool-cases (is_charge s)) [
  | inl e ↦ rw e e
  | inr e ↦ rw e (is_charge-turns s (s.turns_remaining - k) ∙ e)
]

tick_status-aged : (k : ℕ) (s : StatusEffect) → tick_status (aged k s) ≡ aged (suc k) s
unfolding tick_status
tick_status-aged k s = elim (Bool-cases (is_charge s)) [
  | inl e ↦ rw (e, e) refl
  | inr e ↦ rw (e, is_charge-turns, e) (ap (λ n. record s { turns_remaining = n }) (omega arith))
]

aged_zero : (s : StatusEffect) → aged 0 s ≡ s
aged_zero s = elim (Bool-cases (is_charge s)) [
  | inl e ↦ rw e refl
  | inr e ↦ rw e (ap (λ n. record s { turns_remaining = n }) (omega arith))
]

keeps-aged_tick : (k : ℕ) (s : StatusEffect) → keeps (aged (suc k) s) ≡ outlasts (suc k) s
unfolding keeps
keeps-aged_tick k s = elim (Bool-cases (is_charge s)) [
  | inl e ↦ rw (e, e) refl
  | inr e ↦ rw (e, is_charge-turns, e) (ground arith)
]

outlasts-suc : (k : ℕ) (s : StatusEffect) → outlasts k s ≡ false → outlasts (suc k) s ≡ false
outlasts-suc k s e = ground (arith, e)

-- A filtered and mapped list, filtered and mapped once more.
filter-map :
    (q : StatusEffect → Bool) (h f : StatusEffect → StatusEffect) (p : StatusEffect → Bool)
    (g : StatusEffect → StatusEffect) (r : StatusEffect → Bool)
    → ((s : StatusEffect) → p s ≡ false → r s ≡ false)
    → ((s : StatusEffect) → h (f s) ≡ g s)
    → ((s : StatusEffect) → q (g s) ≡ r s)
    → (ss : List StatusEffect) → filter q (map h (map f (filter p ss))) ≡ map g (filter r ss)
filter-map q h f p g r off same kept [] = refl
filter-map q h f p g r off same kept (s ∷ ss) =
    let rest = filter-map q h f p g r off same kept ss in
    elim (Bool-cases (p s)) [
      | inl e ↦ elim (Bool-cases (r s)) [
        | inl o ↦ rw (e, o, same s, kept s, o) (ap (λ l. g s ∷ l) rest)
        | inr o ↦ rw (e, o, same s, kept s, o) rest
      ]
      | inr e ↦ rw (e, off s e) rest
    ]

first_tick : (ss : List StatusEffect) → tick_list ss ≡ map (aged 1) (filter (outlasts 1) ss)
unfolding tick_list
first_tick [] = refl
first_tick (s ∷ ss) =
    let same = ap tick_status (sym (aged_zero s)) ∙ tick_status-aged 0 s in
    elim (Bool-cases (outlasts 1 s)) [
      | inl e ↦ rw (e, same, keeps-aged_tick 0 s, e) (ap (λ l. aged 1 s ∷ l) (first_tick ss))
      | inr e ↦ rw (e, same, keeps-aged_tick 0 s, e) (first_tick ss)
    ]

-- After any positive number of ticks exactly the charges, unchanged however many ticks there are, and the
-- statuses that had more turns left than there were ticks are still there, in their order, each with its turns
-- counted down.
pub ticks_lem :
    (k : ℕ) (ss : List StatusEffect)
    → ticks (suc k) ss ≡ map (aged (suc k)) (filter (outlasts (suc k)) ss)
unfolding ticks tick_list
ticks_lem zero ss = first_tick ss
ticks_lem (suc k) ss =
    ap tick_list (ticks_lem k ss)
    ∙ filter-map keeps tick_status (aged (suc k)) (outlasts (suc k)) (aged (suc (suc k)))
        (outlasts (suc (suc k))) (outlasts-suc (suc k)) (tick_status-aged (suc k))
        (keeps-aged_tick (suc k)) ss
