-- ===== src/Fixed/Distance.antt =====
-- Squared distances of crates/db-sim-core/src/fixed.rs, where saturation must not change an answer.
use dungeon_barrage.Base.{
  ℕ, suc, ◌+◌, ◌-◌, ◌*◌, ◌^◌, ◌≤◌, ◌<◌, ◌≡◌, ◌↔◌, true, arith, ℤ, pos, negsuc, ◌+ℤ◌, ◌-ℤ◌, ◌*ℤ◌,
  ◌≤ℤ◌, sat_i64, IsI32, min,
}
use dungeon_barrage.Fixed.{FixedPoint, distance_squared, within_radius}
use dungeon_barrage.Fixed.Divide.{abs, mul_mono, abs-of_IsI32}

-- The distance of two integers, and the true squared distance of two positions.
abbrev pub gap : ℤ → ℤ → ℕ
gap (pos a) (pos b) = (a - b) + (b - a)
gap (pos a) (negsuc b) = a + suc b
gap (negsuc a) (pos b) = suc a + b
gap (negsuc a) (negsuc b) = (a - b) + (b - a)

unfoldable pub euclidean : FixedPoint → FixedPoint → ℕ
euclidean p q = gap p.x q.x * gap p.x q.x + gap p.y q.y * gap p.y q.y

abbrev pub i64_cap : ℕ
i64_cap = 2 ^ 63 - 1

abs--ℤ : (a b : ℤ) → abs (a -ℤ b) ≡ gap a b
unfolding ◌-ℤ◌
abs--ℤ (pos a) (pos b) = ground arith
abs--ℤ (pos a) (negsuc b) = ground arith
abs--ℤ (negsuc a) (pos b) = ground arith
abs--ℤ (negsuc a) (negsuc b) = ground arith

gap-small : (a b : ℤ) → IsI32 a → IsI32 b → gap a b < 2 ^ 32
gap-small (pos a) (pos b) h k = omega arith
gap-small (pos a) (negsuc b) h k = omega arith
gap-small (negsuc a) (pos b) h k = omega arith
gap-small (negsuc a) (negsuc b) h k = omega arith

sat_i64-small : (a : ℤ) → abs a < 2 ^ 33 → sat_i64 a ≡ a
unfolding sat_i64
sat_i64-small (pos a) h = ground arith
sat_i64-small (negsuc a) h = ground arith

square : (a : ℤ) → a *ℤ a ≡ pos (abs a * abs a)
unfolding ◌*ℤ◌
square (pos a) = ground arith
square (negsuc a) = ground arith

sat_i64-pos : (n : ℕ) → sat_i64 (pos n) ≡ pos (min n i64_cap)
unfolding sat_i64
sat_i64-pos n = ground arith

+ℤ-pos : (a b : ℕ) → pos a +ℤ pos b ≡ pos (a + b)
unfolding ◌+ℤ◌
+ℤ-pos a b = ground arith

abbrev pub IsCell : FixedPoint → Type 0
IsCell p = IsI32 p.x × IsI32 p.y

axis :
    (a b : ℤ)
    → IsI32 a
    → IsI32 b
    → sat_i64 (sat_i64 (a -ℤ b) *ℤ sat_i64 (a -ℤ b)) ≡ pos (min (gap a b * gap a b) i64_cap)
axis a b h k =
    rw (sat_i64-small (a -ℤ b) (omega (arith, abs--ℤ a b, gap-small a b h k)))
      (rw (square (a -ℤ b)) (rw (abs--ℤ a b) (sat_i64-pos _)))

-- For i32 coordinates the reported squared distance is the true one, cut off at the largest i64.
pub distance_squared_lem :
    (p q : FixedPoint)
    → IsCell p
    → IsCell q
    → distance_squared p q ≡ pos (min (euclidean p q) i64_cap)
unfolding distance_squared euclidean
distance_squared_lem p q h k =
    rw (axis p.x q.x h.0 k.0, axis p.y q.y h.1 k.1, +ℤ-pos _ _, sat_i64-pos _) (ground arith)

radius_cap : (r : ℤ) → IsI32 r → abs r * abs r < i64_cap
radius_cap r h =
    omega (arith, mul_mono (abs r) (abs r) (2 ^ 31) (2 ^ 31) (abs-of_IsI32 r h) (abs-of_IsI32 r h))

-- A farther position is never reported as nearer.
pub distance_squared-mono :
    (p q r s : FixedPoint)
    → IsCell p
    → IsCell q
    → IsCell r
    → IsCell s
    → euclidean p q ≤ euclidean r s
    → distance_squared p q ≤ℤ distance_squared r s
distance_squared-mono p q r s hp hq hr hs h =
    rw (distance_squared_lem p q hp hq, distance_squared_lem r s hr hs) (omega arith)

-- For i32 inputs no overflow and no saturation changes the answer: the test holds exactly when the
-- true squared distance is at most the squared radius.
pub within_radius_iff :
    (p q : FixedPoint) (radius : ℤ)
    → IsCell p
    → IsCell q
    → IsI32 radius
    → (within_radius p q radius ≡ true) ↔ (euclidean p q ≤ abs radius * abs radius)
unfolding within_radius
within_radius_iff p q radius hp hq hr =
    rw (distance_squared_lem p q hp hq, square radius, sat_i64-pos (abs radius * abs radius))
      (ground (arith, radius_cap radius hr))
