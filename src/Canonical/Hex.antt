-- ===== src/Canonical/Hex.antt =====
-- The hexadecimal digest of crates/db-sim-core/src/canonical.rs tells the 64-bit states apart.
use dungeon_barrage.Base.{
  ℕ, zero, suc, ◌+◌, ◌*◌, ◌/◌, ◌%◌, ◌^◌, ◌<◌, ◌≤◌, ◌≡◌, refl, ap, ◌∙◌, ◌⊎◌, ◌↔◌, arith, length, All,
}
use native.Mathlib.Nat.{add-mul-mod_self_right, mod-eq_of_lt, pow-suc}
use dungeon_barrage.Canonical.Bytes.{unique_cons}
use dungeon_barrage.Canonical.{CanonicalHasher, hex_digit, hex_digits, finish_hex}

-- `0` to `9` and `a` to `f`.
abbrev pub IsHexDigit : ℕ → Type 0
IsHexDigit c = ((48 ≤ c) × (c ≤ 57)) ⊎ ((97 ≤ c) × (c ≤ 102))

hex_digit-IsHexDigit : (d : ℕ) → d < 16 → IsHexDigit (hex_digit d)
unfolding hex_digit
hex_digit-IsHexDigit d h = ground arith

hex_digit-inj : (c d : ℕ) → c < 16 → d < 16 → hex_digit c ≡ hex_digit d → c ≡ d
unfolding hex_digit
hex_digit-inj c d h k e = ground (arith, e)

hex_digits-All : (n v : ℕ) → (length (hex_digits n v) ≡ n) × All IsHexDigit (hex_digits n v)
unfolding hex_digits
hex_digits-All zero v = (refl, tt)
hex_digits-All (suc n) v =
    let (l, a) = hex_digits-All n v in
    (omega (arith, l), (hex_digit-IsHexDigit (v / 16 ^ n % 16) (omega arith), a))

low_part : (c p r : ℕ) → c < 16 → r < p → c * p + r < p * 16
low_part c p r h k = grind arith

-- A number modulo sixteen times `p`, by its next digit and the rest.
mod_split : (u p : ℕ) → 0 < p → u % (p * 16) ≡ u / p % 16 * p + u % p
mod_split u p h =
    let whole : u ≡ u / p % 16 * p + u % p + u / p / 16 * (p * 16) =
      parts (u / p) p (u % p) u (omega arith) in
    ap (λ (n : ℕ). n % (p * 16)) whole
    ∙ add-mul-mod_self_right (u / p % 16 * p + u % p) (u / p / 16) (p * 16)
    ∙ mod-eq_of_lt {n = u / p % 16 * p + u % p} {m = p * 16}
        (low_part (u / p % 16) p (u % p) (omega arith) (omega (arith, h)))
  where
    parts : (q p r u : ℕ) → u ≡ q * p + r → u ≡ q % 16 * p + r + q / 16 * (p * 16)
    parts q p r u e =
        let d : q ≡ q % 16 + q / 16 * 16 = omega arith in omega (arith, e, ap (λ (n : ℕ). n * p) d)

-- The digits are those of the number modulo a power of 16.
hex_digits-inj : (n u v : ℕ) → hex_digits n u ≡ hex_digits n v → u % 16 ^ n ≡ v % 16 ^ n
unfolding hex_digits
hex_digits-inj zero u v e = omega arith
hex_digits-inj (suc n) u v e =
    let (head, tail) : (hex_digit (u / 16 ^ n % 16) ≡ hex_digit (v / 16 ^ n % 16))
        × (hex_digits n u ≡ hex_digits n v) =
      unique_cons _ _ _ _ e in
    let digit =
      hex_digit-inj (u / 16 ^ n % 16) (v / 16 ^ n % 16) (omega arith) (omega arith) head in
    let rest = hex_digits-inj n u v tail in
    let p = pow_pos n in
    rw (pow-suc 16 n, mod_split u (16 ^ n) p, mod_split v (16 ^ n) p, digit, rest) refl
  where
    pow_pos : (n : ℕ) → 0 < 16 ^ n
    pow_pos zero = omega arith
    pow_pos (suc n) = omega (arith, pow_pos n)

-- The digest of a hasher in a 64-bit state is sixteen lowercase hexadecimal digits, and is that of
-- another such hasher exactly if they are in the same state.
pub finish_hex_iff :
    (g h : CanonicalHasher)
    → g.state < 2 ^ 64
    → h.state < 2 ^ 64
    → (length (finish_hex g) ≡ 16)
      × All IsHexDigit (finish_hex g)
      × ((finish_hex g ≡ finish_hex h) ↔ (g ≡ h))
unfolding finish_hex
finish_hex_iff g h k l =
    let (sixteen, digits) = hex_digits-All 16 g.state in
    (
      sixteen,
      digits,
      (
        λ e. state_eq (omega (arith, hex_digits-inj 16 g.state h.state e, k, l)),
        λ e. ap finish_hex e,
      ),
    )
  where
    state_eq : g.state ≡ h.state → g ≡ h
    state_eq e = ap (λ s. record { state = s }) e
