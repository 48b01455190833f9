-- ===== src/Rng/Uniform.antt =====
-- `Rng::bounded` draws without bias: what the rejected values leave divides evenly.
use dungeon_barrage.Base.{
  ℕ, zero, suc, ◌+◌, ◌-◌, ◌*◌, ◌/◌, ◌%◌, ◌^◌, ◌≤◌, ◌<◌, ◌≡◌, refl, none, some, if◌then◌else◌, leb,
  ◌==◌, arith, ap, sym, ◌∙◌, Bool-cases, inl, inr,
}
use native.Mathlib.Nat.{
  mod-eq_of_lt, add-zero, add-suc, add_comm, zero-add, suc-add, add_assoc, add-mul-div_right,
}
use dungeon_barrage.Rng.{threshold, accept}

-- How many of the `n` raw values from `lo` on are accepted for the bound `m` and reduce to `v`.
unfoldable pub hits : ℕ → ℕ → ℕ → ℕ → ℕ
hits m v lo zero = 0
hits m v lo (suc n) =
    elim (accept m lo) [ some w ↦ if w == v then 1 else 0 | none ↦ 0 ] + hits m v (suc lo) n

threshold-lt : (m : ℕ) → 0 < m → threshold m < m
unfolding threshold
threshold-lt m h = omega arith

div-add_self : (a m : ℕ) → 0 < m → (a / m + 1) * m ≡ a / m * m + m
div-add_self a m h = omega arith

-- The accepted values are a whole number of rounds of `m`.
rounds : (m : ℕ) → 0 < m → m < 2 ^ 32 → threshold m + ((2 ^ 32 - m) / m + 1) * m ≡ 2 ^ 32
unfolding threshold
rounds m h k =
    rw (mod-eq_of_lt {n = 2 ^ 32 - m} {m = 2 ^ 32} (omega arith))
      (omega (arith, div-add_self (2 ^ 32 - m) m h))

div_eq : (x m q : ℕ) → q * m ≤ x → x < (q + 1) * m → x / m ≡ q
div_eq x m q h k = grind arith

-- The raw values below `n` that reduce to `v`, in closed form.
abbrev below : ℕ → ℕ → ℕ → ℕ
below m v n = (n + (m - 1 - v)) / m

below-suc : (m v n : ℕ) → v < m → below m v (suc n) ≡ below m v n + (if n % m == v then 1 else 0)
below-suc m v n h = elim (Bool-cases (leb (v + 1) (n % m))) [
  | inl above ↦
      ground
        (arith, div_eq (n + (m - 1 - v)) m (n / m + 1), div_eq (suc n + (m - 1 - v)) m (n / m + 1))
  | inr low ↦ ground (
    arith,
    div_eq (n + (m - 1 - v)) m (n / m),
    div_eq (suc n + (m - 1 - v)) m (n / m),
    div_eq (suc n + (m - 1 - v)) m (n / m + 1),
  )
]

hits-skip : (m v lo n : ℕ) → lo + n ≤ threshold m → hits m v lo n ≡ 0
unfolding hits accept
hits-skip m v lo zero h = refl
hits-skip m v lo (suc n) h = ground (arith, hits-skip m v (suc lo) n)

hits-below :
    (m v lo n : ℕ) → v < m → threshold m ≤ lo → hits m v lo n + below m v lo ≡ below m v (lo + n)
unfolding hits accept
hits-below m v lo zero h k = omega (arith, ap (below m v) (add-zero lo))
hits-below m v lo (suc n) h k =
    let e : below m v (suc lo + n) ≡ below m v (lo + suc n) = ap (below m v) (omega arith) in
    ground (arith, hits-below m v (suc lo) n, below-suc m v lo h, e)

hits-append : (m v lo i j : ℕ) → hits m v lo (i + j) ≡ hits m v lo i + hits m v (lo + i) j
unfolding hits accept
hits-append m v lo zero j = rw (zero-add j, add-zero lo) (sym (zero-add _))
hits-append m v lo (suc i) j =
    rw (suc-add i j, hits)
      (rw (hits-append m v (suc lo) i j, suc-add lo i, ← add-suc lo i) (sym (add_assoc _ _ _)))

below-add : (m v n q : ℕ) → 0 < m → below m v (n + q * m) ≡ below m v n + q
below-add m v n q h =
    let e : n + q * m + (m - 1 - v) ≡ n + (m - 1 - v) + q * m = omega arith in
    ap (λ (k : ℕ). k / m) e ∙ add-mul-div_right (n + (m - 1 - v)) q h

hits-rounds : (m v q n : ℕ) → 0 < m → v < m → threshold m + q * m ≡ n → hits m v 0 n ≡ q
hits-rounds m v q n h l e = rw (← e) (
    omega (
      arith,
      hits-append m v 0 (threshold m) (q * m),
      hits-skip m v 0 (threshold m) (omega arith),
      ap (λ (k : ℕ). hits m v k (q * m)) (zero-add (threshold m)),
      hits-below m v (threshold m) (q * m) l (omega arith),
      below-add m v (threshold m) q h,
    ))

-- `Rng::bounded` has no bias: of the 2 ^ 32 raw values, those that it accepts and reduces to `v`
-- are equally many for each `v` below the bound, and the rejected ones are the `threshold m` lowest.
pub hits-uniform :
    (m v : ℕ) → 0 < m → m < 2 ^ 32 → v < m → hits m v 0 (2 ^ 32) * m + threshold m ≡ 2 ^ 32
hits-uniform m v h k l =
    let e = rounds m h k in
    rw (hits-rounds m v ((2 ^ 32 - m) / m + 1) (2 ^ 32) h l e) (add_comm _ _ ∙ e)
