-- ===== src/Rng/Bounded.antt =====
-- The rejection loop of `Rng::bounded` ends for every seed and bound, with a value in range.
use native.Mathlib.Nat.{add-mul-mod_self_right, mod-eq_of_lt}
use dungeon_barrage.Base.{
  ℕ, zero, suc, ◌+◌, ◌-◌, ◌*◌, ◌%◌, ◌^◌, ◌≤◌, ◌<◌, ◌≡◌, refl, ◌∙◌, inl, inr, some, arith,
  Option-cases,
}
use dungeon_barrage.Rng.{Rng, advance, output, threshold, accept, draw, bounded}
use dungeon_barrage.Rng.Period.{iterate, advance_full_period}

-- A 64-bit state at which the generator draws the largest 32-bit value.
abbrev top_state : ℕ
top_state = 0x07ff_fe00_0000_0000

output-top_state : output top_state ≡ 0xffff_ffff
unfolding output
output-top_state = refl

accept-top : (m : ℕ) → 0 < m → m < 2 ^ 32 → (v : ℕ) × (accept m 0xffff_ffff ≡ some v)
unfolding accept threshold
accept-top m h k = (0xffff_ffff % m, ground arith)

accept-lt : (m raw v : ℕ) → 0 < m → accept m raw ≡ some v → v < m
unfolding accept
accept-lt m raw v h e = ground arith

abbrev Draws : ℕ → ℕ → Rng → Type 0
Draws m fuel r = (v : ℕ) × (r' : Rng) × (draw fuel r m ≡ some (v, r')) × (v < m)

-- A state on the way at which the value is accepted ends the loop there or before.
draw-Draws :
    (m n fuel : ℕ) (r : Rng)
    → 0 < m
    → n < fuel
    → (v : ℕ) × (accept m (output (iterate n r.state)) ≡ some v)
    → Draws m fuel r
unfolding draw iterate
draw-Draws m n zero r h k (v, e) = elim k [ ]
draw-Draws m zero (suc fuel) r h k (v, e) =
    (v, record { state = advance r.state }, rw (e, draw), accept-lt m _ v h e)
draw-Draws m (suc n) (suc fuel) r h k (v, e) = elim (Option-cases (accept m (output r.state))) [
  | inl rejected ↦
      let (w, r', f, l) =
        draw-Draws m n fuel (record { state = advance r.state }) h (omega arith) (v, e) in
      (w, r', rw (rejected, draw) f, l)
  | inr (w, ok) ↦ (w, record { state = advance r.state }, rw (ok, draw), accept-lt m _ w h ok)
]

-- The rejection loop ends for every 64-bit seed and every non-zero 32-bit bound, within 2 ^ 64
-- rounds, and the value is below the bound.
pub bounded_total :
    (r : Rng) (m fuel : ℕ)
    → r.state < 2 ^ 64
    → 0 < m
    → m < 2 ^ 32
    → 2 ^ 64 ≤ fuel
    → (v : ℕ) × (r' : Rng) × (bounded fuel r m ≡ some (v, r')) × (v < m)
unfolding bounded
bounded_total r m fuel h p k f =
    let (n, short, meets) = advance_full_period r.state top_state h (omega arith) in
    let (v, a) = accept-top m p k in
    let e : accept m (output (iterate n r.state)) ≡ some v = rw (meets, output-top_state) a in
    let (w, r', d, l) = draw-Draws m n fuel r p (omega arith) (v, e) in (w, r', ground arith, l)

threshold-divisor : (m q : ℕ) → 0 < m → q * m ≡ 2 ^ 32 → threshold m ≡ 0
unfolding threshold
threshold-divisor m zero h e = absurd (omega (arith, e))
threshold-divisor m (suc q) h e =
    let f : 2 ^ 32 - m ≡ 0 + q * m = omega (arith, e) in
    rw (mod-eq_of_lt {n = 2 ^ 32 - m} {m = 2 ^ 32} (omega arith))
      (rw f (add-mul-mod_self_right 0 q m ∙ mod-eq_of_lt {n = 0} {m = m} h))

accept-divisor : (m q raw : ℕ) → 0 < m → q * m ≡ 2 ^ 32 → accept m raw ≡ some (raw % m)
unfolding accept
accept-divisor m q raw h e = ground (arith, threshold-divisor m q h e)

-- A bound that divides 2 ^ 32 takes exactly one draw, whatever the seed: the raw value reduced.
pub bounded_single :
    (r : Rng) (m q fuel : ℕ)
    → 0 < m
    → q * m ≡ 2 ^ 32
    → bounded (suc fuel) r m ≡ some (output r.state % m, record { state = advance r.state })
unfolding bounded
bounded_single r m q fuel h e = elim (Option-cases (accept m (output r.state))) [
  | inl f ↦ cc (f, accept-divisor m q (output r.state) h e)
  | inr (v, f) ↦ ground (arith, f, accept-divisor m q (output r.state) h e)
]
