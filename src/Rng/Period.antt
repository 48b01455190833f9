-- ===== src/Rng/Period.antt =====
-- The generator of crates/db-sim-core/src/rng.rs runs through all 2 ^ 64 states, so the rejection
-- loop of `bounded` always ends.
use native.Mathlib.Nat.{add-mul-mod_self_right, mod-eq_of_lt, pow-suc, zero-add, suc-add}
use dungeon_barrage.Base.{
  ℕ, zero, suc, ◌+◌, ◌-◌, ◌*◌, ◌/◌, ◌%◌, ◌^◌, ◌<◌, ◌≡◌, sym, ap, subst, ◌∙◌, ◌⊎◌, inl, inr, arith,
}
use dungeon_barrage.Rng.{advance, multiplier, increment}

-- `a` and `b` leave the same remainder by `m`, as an equation.
record Cong (m a b : ℕ) : Type 0 where
  left : ℕ
  right : ℕ
  same : a + left * m ≡ b + right * m

abbrev modulus : ℕ
modulus = 2 ^ 64

unfoldable pub iterate : ℕ → ℕ → ℕ
iterate zero s = s
iterate (suc n) s = iterate n (advance s)

iterate-add : (m n s : ℕ) → iterate (m + n) s ≡ iterate n (iterate m s)
unfolding iterate
iterate-add zero n s = ap (λ (k : ℕ). iterate k s) (zero-add n)
iterate-add (suc m) n s = ap (λ (k : ℕ). iterate k s) (suc-add m n) ∙ iterate-add m n (advance s)

Cong-trans : {m a b c : ℕ} → Cong m a b → Cong m b c → Cong m a c
Cong-trans {m} x y = record {
  left = x.left + y.left;
  right = x.right + y.right;
  same = omega (arith, x.same, y.same);
}

Cong-affine : {m a b : ℕ} (f c : ℕ) → Cong m a b → Cong m (f * a + c) (f * b + c)
Cong-affine f c x = record {
  left = f * x.left;
  right = f * x.right;
  same = omega (arith, ap (λ (t : ℕ). f * t) x.same);
}

Cong-divisor : {m a b : ℕ} (d e : ℕ) → d * e ≡ m → Cong m a b → Cong d a b
Cong-divisor d e h x = record {
  left = e * x.left;
  right = e * x.right;
  same = omega (arith, ap (λ (t : ℕ). x.left * t) h, ap (λ (t : ℕ). x.right * t) h, x.same);
}

multiple_eq : (m a b i j : ℕ) → a < m → b < m → a + i * m ≡ b + j * m → a ≡ b
multiple_eq m a b i j h k e =
    sym (add-mul-mod_self_right a i m ∙ mod-eq_of_lt h)
    ∙ ap (λ (t : ℕ). t % m) e
    ∙ (add-mul-mod_self_right b j m ∙ mod-eq_of_lt k)

Cong-eq : {m a b : ℕ} → a < m → b < m → Cong m a b → a ≡ b
Cong-eq {m} {a} {b} h k x = multiple_eq m a b x.left x.right h k x.same

advance-Cong : (s : ℕ) → Cong modulus (advance s) (s * multiplier + increment)
unfolding advance
advance-Cong s = record {
  left = s * multiplier / modulus + (s * multiplier % modulus + increment) / modulus;
  right = 0;
  same = omega arith;
}

-- 2 ^ k steps are an affine map: the factor is 1 mod 4 * 2 ^ k, the offset an odd multiple of 2 ^ k.
record Jump (t n : ℕ) : Type 0 where
  p : ℕ
  q : ℕ
  affine : (s : ℕ) → Cong modulus (iterate n s) ((1 + 4 * t * p) * s + t * (2 * q + 1))

Jump-zero : Jump 1 1
unfolding iterate
Jump-zero = record {
  p = (multiplier - 1) / 4;
  q = (increment - 1) / 2;
  affine = λ s. Cong-trans (advance-Cong s) (record { left = 0; right = 0; same = omega arith });
}

compose :
    (t p q s : ℕ)
    → (1 + 4 * t * p) * ((1 + 4 * t * p) * s + t * (2 * q + 1)) + t * (2 * q + 1)
      ≡ (1 + 4 * (2 * t) * (p + 2 * t * p * p)) * s + 2 * t * (2 * (q + t * p * (2 * q + 1)) + 1)
compose t p q s = omega arith

Jump-double : {t n : ℕ} → Jump t n → Jump (2 * t) (n + n)
Jump-double {t} {n} j = record {
  p = j.p + 2 * t * j.p * j.p;
  q = j.q + t * j.p * (2 * j.q + 1);
  affine = λ s. rw (iterate-add n n s) (
      rw (← compose t j.p j.q s) (
        Cong-trans (j.affine (iterate n s))
          (Cong-affine (1 + 4 * t * j.p) (t * (2 * j.q + 1)) (j.affine s))));
}

jump : (k : ℕ) → Jump (2 ^ k) (2 ^ k)
jump zero = Jump-zero
jump (suc k) =
    let e : 2 * 2 ^ k ≡ 2 ^ suc k = omega (arith, pow-suc 2 k) in
    let f : 2 ^ k + 2 ^ k ≡ 2 ^ suc k = omega (arith, pow-suc 2 k) in
    subst (λ t. Jump t (2 ^ suc k)) e (subst (Jump (2 * 2 ^ k)) f (Jump-double (jump k)))

-- Modulo 2 * t the jump adds t.
Jump-shift :
    {t n : ℕ} (e : ℕ)
    → 2 * t * e ≡ modulus
    → Jump t n
    → (s : ℕ) → Cong (2 * t) (iterate n s) (s + t)
Jump-shift {t} {n} e h j s =
    Cong-trans (Cong-divisor (2 * t) e h (j.affine s))
      (record { left = 0; right = 2 * j.p * s + j.q; same = omega arith })

pow-split : (k j : ℕ) → 2 ^ k * 2 ^ j ≡ 2 ^ (k + j)
pow-split zero j = rw (zero-add j) (omega arith)
pow-split (suc k) j = rw (suc-add k j) (
    omega (
      arith,
      pow-suc 2 k,
      pow-suc 2 (k + j),
      pow-split k j,
      ap (λ (t : ℕ). t * 2 ^ j) (pow-suc 2 k),
    ))

-- Some number of steps below `b` leads from `s` to `y`, modulo `t`.
record Leads (t b s y : ℕ) : Type 0 where
  steps : ℕ
  short : steps < b
  meets : Cong t (iterate steps s) y

halves : (n : ℕ) → n ≡ 2 * (n / 2) + n % 2
halves n = omega arith

parities : (i j : ℕ) → (i % 2 ≡ j % 2) ⊎ (((i % 2 ≡ 0) × (j % 2 ≡ 1)) ⊎ ((i % 2 ≡ 1) × (j % 2 ≡ 0)))
parities i j = grind arith

-- Two numbers that agree modulo t agree modulo 2 * t, or are t apart modulo 2 * t.
Cong-halves : {t a b : ℕ} → Cong t a b → Cong (2 * t) a b ⊎ Cong (2 * t) (a + t) b
Cong-halves {t} {a} {b} x =
    let l = ap (λ (u : ℕ). u * t) (halves x.left) in
    let r = ap (λ (u : ℕ). u * t) (halves x.right) in
    elim (parities x.left x.right) [
      | inl e ↦ inl (record {
        left = x.left / 2;
        right = x.right / 2;
        same = omega (arith, x.same, l, r, ap (λ (u : ℕ). u * t) e);
      })
      | inr (inl (e, f)) ↦ inr (record {
        left = x.left / 2;
        right = x.right / 2 + 1;
        same = omega (arith, x.same, l, r, ap (λ (u : ℕ). u * t) e, ap (λ (u : ℕ). u * t) f);
      })
      | inr (inr (e, f)) ↦ inr (record {
        left = x.left / 2;
        right = x.right / 2;
        same = omega (arith, x.same, l, r, ap (λ (u : ℕ). u * t) e, ap (λ (u : ℕ). u * t) f);
      })
    ]

Leads-double :
    {t b s y : ℕ} (e : ℕ)
    → 2 * t * e ≡ modulus
    → Jump t b
    → Leads t b s y
    → Leads (2 * t) (b + b) s y
Leads-double {t} {b} {s} {y} e h j l = elim (Cong-halves l.meets) [
  | inl near ↦ record { steps = l.steps; short = omega (arith, l.short); meets = near }
  | inr far ↦ record {
    steps = l.steps + b;
    short = omega (arith, l.short);
    meets = rw (iterate-add l.steps b s) (Cong-trans (Jump-shift e h j (iterate l.steps s)) far);
  }
]

leads : (k j : ℕ) → k + j ≡ 64 → (s y : ℕ) → Leads (2 ^ k) (2 ^ k) s y
unfolding iterate
leads zero j h s y = record {
  steps = 0;
  short = omega arith;
  meets = record { left = y; right = s; same = omega arith };
}
leads (suc k) j h s y =
    let two : 2 * 2 ^ k ≡ 2 ^ suc k = omega (arith, pow-suc 2 k) in
    let sum : 2 ^ k + 2 ^ k ≡ 2 ^ suc k = omega (arith, pow-suc 2 k) in
    let split : 2 * 2 ^ k * 2 ^ j ≡ modulus =
      rw (two, pow-split (suc k) j) (ap (λ (n : ℕ). 2 ^ n) h) in
    let l = Leads-double (2 ^ j) split (jump k) (leads k (suc j) (omega arith) s y) in
    subst (λ t. Leads t (2 ^ suc k) s y) two (subst (λ b. Leads (2 * 2 ^ k) b s y) sum l)

advance-lt : (s : ℕ) → advance s < modulus
unfolding advance
advance-lt s = omega arith

iterate-lt : (n s : ℕ) → s < modulus → iterate n s < modulus
unfolding iterate
iterate-lt zero s h = h
iterate-lt (suc n) s h = iterate-lt n (advance s) (advance-lt s)

-- From every seed the generator reaches every 64-bit state, in fewer than 2 ^ 64 steps.
pub advance_full_period :
    (s y : ℕ) → s < 2 ^ 64 → y < 2 ^ 64 → (n : ℕ) × (n < 2 ^ 64) × (iterate n s ≡ y)
advance_full_period s y h k =
    let l = leads 64 0 (omega arith) s y in
    (l.steps, l.short, Cong-eq (iterate-lt l.steps s h) k l.meets)
