-- ===== src/Ballistics/Sine.antt =====
-- The sine and cosine of crates/db-sim-core/src/ballistics.rs: a table of whole degrees and the straight
-- line between two of them.
use dungeon_barrage.Base.{
  ℕ, ◌+◌, ◌-◌, ◌/◌, ◌%◌, List, [], ◌∷◌, ◌++◌, map, get_elem?, ℤ, pos, negsuc, neg, ◌+ℤ◌, ◌-ℤ◌,
  checked_i32, text,
}
use mathlib.Core.List.{reverse}
use dungeon_barrage.Fixed.{scale}
use dungeon_barrage.Error.{SimResult, overflow, ok_or, ◌>>=◌}

abbrev pub sin_scale : ℕ
sin_scale = 65_536

abbrev pub degree_step : ℕ
degree_step = 1_000

abbrev pub full_circle : ℕ
full_circle = 360_000

abbrev pub quarter_circle : ℕ
quarter_circle = 90_000

-- The sines of 0 to 90 degrees, times 65,536.
pub quarter_sines : List ℕ
quarter_sines =
    0 ∷ 1144 ∷ 2287 ∷ 3430 ∷ 4572 ∷ 5712 ∷ 6850 ∷ 7987 ∷ 9121 ∷ 10252 ∷ 11380 ∷ 12505 ∷ 13626
    ∷ 14742 ∷ 15855 ∷ 16962 ∷ 18064 ∷ 19161 ∷ 20252 ∷ 21336 ∷ 22415 ∷ 23486 ∷ 24550 ∷ 25607 ∷ 26656
    ∷ 27697 ∷ 28729 ∷ 29753 ∷ 30767 ∷ 31772 ∷ 32768 ∷ 33754 ∷ 34729 ∷ 35693 ∷ 36647 ∷ 37590 ∷ 38521
    ∷ 39441 ∷ 40348 ∷ 41243 ∷ 42126 ∷ 42995 ∷ 43852 ∷ 44695 ∷ 45525 ∷ 46341 ∷ 47143 ∷ 47930 ∷ 48703
    ∷ 49461 ∷ 50203 ∷ 50931 ∷ 51643 ∷ 52339 ∷ 53020 ∷ 53684 ∷ 54332 ∷ 54963 ∷ 55578 ∷ 56175 ∷ 56756
    ∷ 57319 ∷ 57865 ∷ 58393 ∷ 58903 ∷ 59396 ∷ 59870 ∷ 60326 ∷ 60764 ∷ 61183 ∷ 61584 ∷ 61966 ∷ 62328
    ∷ 62672 ∷ 62997 ∷ 63303 ∷ 63589 ∷ 63856 ∷ 64104 ∷ 64332 ∷ 64540 ∷ 64729 ∷ 64898 ∷ 65048 ∷ 65177
    ∷ 65287 ∷ 65376 ∷ 65446 ∷ 65496 ∷ 65526 ∷ 65536 ∷ []

abbrev pub tail {ℓ} : {A : Type ℓ} → List A → List A
tail [] = []
tail (x ∷ xs) = xs

pub half_sines : List ℕ
unfolding quarter_sines
half_sines = quarter_sines ++ tail (reverse quarter_sines)

-- The table of the source, of 0 to 360 degrees: it rises and falls, and again below zero.
pub sine_table : List ℤ
unfolding half_sines neg
sine_table = map pos half_sines ++ map (λ n. neg (pos n)) (tail half_sines)

-- `rem_euclid` by a positive number.
unfoldable pub rem_euclid : ℤ → ℕ → ℕ
rem_euclid (pos n) d = n % d
rem_euclid (negsuc n) d = d - 1 - n % d

unfoldable pub sine_scaled : ℤ → SimResult ℤ
unfolding rem_euclid sine_table checked_i32 ◌-ℤ◌ ◌+ℤ◌ scale
sine_scaled angle = do
  let normalized = rem_euclid angle full_circle
  let index = normalized / degree_step
  low ← ok_or (get_elem? sine_table index) (overflow (text "ballistics::sine_table_low"))
  high ← ok_or (get_elem? sine_table (index + 1)) (overflow (text "ballistics::sine_table_high"))
  delta ← ok_or (checked_i32 (high -ℤ low)) (overflow (text "ballistics::sine_table_delta"))
  interpolated ←
      ok_or (scale delta (pos (normalized % degree_step)) (pos degree_step))
        (overflow (text "ballistics::sine_interpolate"))
  ok_or (checked_i32 (low +ℤ interpolated)) (overflow (text "ballistics::sine_result"))

unfoldable pub cosine_scaled : ℤ → SimResult ℤ
unfolding sine_scaled checked_i32 ◌+ℤ◌
cosine_scaled angle = do
  shifted ←
      ok_or (checked_i32 (angle +ℤ pos quarter_circle)) (overflow (text "ballistics::cosine_shift"))
  sine_scaled shifted
