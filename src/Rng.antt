-- ===== src/Rng.antt =====
-- crates/db-sim-core/src/rng.rs: the seeded PCG generator. A u64 or u32 is a number below 2 ^ 64 or
-- 2 ^ 32, with its wrap-around written out; a draw returns the value and the advanced generator.
pub mod Uniform
pub mod Bounded
pub mod Period
use Prim.Native.Nat.{bit_xor}
use dungeon_barrage.Base.{
  ℕ, zero, suc, ◌+◌, ◌-◌, ◌*◌, ◌/◌, ◌%◌, ◌^◌, Bool, true, false, Option, none, some, if◌then◌else◌,
  ltb, leb, ◌==◌,
}

pub record Rng : Type 0 where
  pub state : ℕ

abbrev pub multiplier : ℕ
multiplier = 6_364_136_223_846_793_005

abbrev pub increment : ℕ
increment = 1_442_695_040_888_963_407

unfoldable pub from_state : ℕ → Rng
from_state seed = record { state = seed }

-- `wrapping_mul` and `wrapping_add`.
unfoldable pub advance : ℕ → ℕ
advance s = (s * multiplier % 2 ^ 64 + increment) % 2 ^ 64

-- `u32::rotate_right`.
unfoldable pub rotate_right : ℕ → ℕ → ℕ
rotate_right x n = let r = n % 32 in x / 2 ^ r + (x % 2 ^ r) * 2 ^ (32 - r)

-- The value drawn at a state.
unfoldable pub output : ℕ → ℕ
unfolding rotate_right
output s = rotate_right (bit_xor (s / 2 ^ 18) s / 2 ^ 27 % 2 ^ 32) (s / 2 ^ 59)

unfoldable pub next_u32 : Rng → ℕ × Rng
unfolding advance output
next_u32 r = (output r.state, record { state = advance r.state })

unfoldable pub next_u64 : Rng → ℕ × Rng
unfolding next_u32
next_u64 r = let (high, r1) = next_u32 r in let (low, r2) = next_u32 r1 in (high * 2 ^ 32 + low, r2)

-- `max_exclusive.wrapping_neg() % max_exclusive`.
unfoldable pub threshold : ℕ → ℕ
threshold m = (2 ^ 32 - m) % 2 ^ 32 % m

-- One round of the rejection loop: the value that it returns, if it accepts the raw one.
unfoldable pub accept : ℕ → ℕ → Option ℕ
unfolding threshold
accept m value = if leb (threshold m) value then some (value % m) else none

-- The rejection loop, on fuel: `none` means that the fuel ran out.
unfoldable pub draw : ℕ → Rng → ℕ → Option (ℕ × Rng)
unfolding next_u32 accept
draw zero r m = none
draw (suc fuel) r m =
    let (value, r') = next_u32 r in
    elim (accept m value) [ some v ↦ some (v, r') | none ↦ draw fuel r' m ]

unfoldable pub bounded : ℕ → Rng → ℕ → Option (ℕ × Rng)
unfolding draw
bounded fuel r m = if m == 0 then some (0, r) else draw fuel r m

-- `Rng::bounded` as a total function: a 64-bit generator needs no more than 2 ^ 64 rounds for a 32-bit
-- bound, so that the fuel does not run out.
unfoldable pub bounded_value : Rng → ℕ → ℕ × Rng
bounded_value r m = elim (bounded (2 ^ 64) r m) [ none ↦ (0, r) | some (v, r') ↦ (v, r') ]
