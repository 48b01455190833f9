-- ===== src/Examples/Numbers.antt =====
-- The generator and the fixed-point arithmetic at concrete inputs.
use dungeon_barrage.Base.{ℕ, ◌+◌, ◌*◌, ◌^◌, ◌<◌, ◌≡◌, some, arith, ℤ, pos, negsuc}
use dungeon_barrage.Fixed.{FixedPoint, round_divide}
use dungeon_barrage.Fixed.Divide.{IsNearest, round_divide-IsNearest}
use dungeon_barrage.Rng.{Rng, from_state, threshold, bounded}
use dungeon_barrage.Rng.Uniform.{hits, hits-uniform}
use dungeon_barrage.Rng.Period.{iterate, advance_full_period}
use dungeon_barrage.Rng.Bounded.{bounded_total}

abbrev at : ℕ → ℕ → FixedPoint
at x y = record { x = pos x; y = pos y }

-- The generator, its divides and its distances.
bounded_total_example :
    (v : ℕ) × (r : Rng) × (bounded (2 ^ 64) (from_state 7) 100 ≡ some (v, r)) × (v < 100)
unfolding from_state
bounded_total_example =
    bounded_total (from_state 7) 100 (2 ^ 64) (omega arith) (omega arith) (omega arith)
      (omega arith)

hits-uniform_example : hits 100 42 0 (2 ^ 32) * 100 + threshold 100 ≡ 2 ^ 32
hits-uniform_example = hits-uniform 100 42 (omega arith) (omega arith) (omega arith)

advance_full_period_example : (n : ℕ) × (n < 2 ^ 64) × (iterate n 7 ≡ 0)
advance_full_period_example = advance_full_period 7 0 (omega arith) (omega arith)

round_divide-IsNearest_example :
    (q : ℤ) × (round_divide (negsuc 4) (pos 2) ≡ some q) × IsNearest (negsuc 4) 2 q
round_divide-IsNearest_example = round_divide-IsNearest (negsuc 4) 2 (omega arith) (omega arith)
