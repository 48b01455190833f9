-- ===== src/Ballistics/Flight.antt =====
-- The flights of crates/db-sim-core/src/ballistics.rs as a whole.
use dungeon_barrage.Base.{
  ℕ, ◌≡◌, refl, inl, inr, Bool, List, [], ◌∷◌, Option, none, some, arith, Bool-cases, subst, ℤ, pos,
  Text, text, ltb_ℤ, ◌≤ℤ◌, ◌||◌,
}
use dungeon_barrage.Fixed.{basis_points, apply_basis_points, FixedPoint}
use dungeon_barrage.Error.{SimError, SimResult, ok, err, ok_or, overflow, ◌>>=◌}
use dungeon_barrage.Types.Ability.{ProjectileAttack}
use dungeon_barrage.Types.Terrain.{TerrainMask}
use dungeon_barrage.Types.Outcome.{BallisticInput, BallisticResult}
use dungeon_barrage.Ballistics.Way.{Flies, launched, fly-Flies}
use dungeon_barrage.Ballistics.{
  FlightState, FlightWorld, sample, fly, integrate, bounds_max_x, bounds_max_y, launch_velocity,
}
use dungeon_barrage.Ballistics.Samples.{IsSampled, Lands, fly-Lands}

abbrev is_out_of_range : ℤ → Bool
is_out_of_range power = ltb_ℤ power (pos 1) || ltb_ℤ (pos basis_points) power

bind→ {ℓ κ} :
    {A : Type ℓ} {B : Type κ} (m : SimResult A) (f : A → SimResult B) {b : B}
    → (m >>= f) ≡ ok b
    → (a : A) × (m ≡ ok a) × (f a ≡ ok b)
bind→ (ok a) f h = (a, refl, h)
bind→ (err e) f h = cc

launch-Lands :
    (w : FlightWorld) (n : ℕ) (f : FlightState) (r : BallisticResult)
    → ◌≡◌ {A = SimResult BallisticResult} (ok (fly w n 1 f)) (ok r)
    → IsSampled 1 f
    → Flies w f n r × Lands w.mask w.characters n r
launch-Lands w n f r e h =
    let same : fly w n 1 f ≡ r = cc e in
    (
      subst (Flies w f n) same (fly-Flies w f n 0 n f (omega arith) launched),
      subst (Lands w.mask w.characters n) same (fly-Lands w n 1 n f (omega arith) (omega arith) h),
    )

ok_or→ : {A : Type 0} (o : Option A) (e : SimError) (a : A) → ok_or o e ≡ ok a → o ≡ some a
ok_or→ none e a h = cc
ok_or→ (some b) e a h = cc h

-- The world and the first state of a flight: the bounds are those of the mask, and it starts at its origin with
-- the launch velocity and all its bounces.
pub record IsLaunched (input : BallisticInput) (attack : ProjectileAttack) (mask : TerrainMask)
    (circles : List (Text × FixedPoint × ℤ)) (w : FlightWorld) (start : FlightState) : Type 0 where
  pub over : w.mask ≡ mask
  pub among : w.characters ≡ circles
  pub width : bounds_max_x mask ≡ ok w.max_x
  pub height : bounds_max_y mask ≡ ok w.max_y
  pub pull : w.gravity ≡ attack.gravity_per_tick
  pub drift : apply_basis_points input.wind_per_tick attack.wind_scale_basis_points ≡ some w.wind
  pub origin : start.position ≡ input.origin
  pub velocity : launch_velocity attack input ≡ ok (start.velocity_x, start.velocity_y)
  pub bounces : start.bounces_remaining ≡ attack.bounces

abbrev world :
    ProjectileAttack → TerrainMask → List (Text × FixedPoint × ℤ) → ℤ → ℤ → ℤ → FlightWorld
world attack mask circles max_x max_y wind = record {
  wind = wind;
  gravity = attack.gravity_per_tick;
  max_x = max_x;
  max_y = max_y;
  mask = mask;
  characters = circles;
}

abbrev first_state : BallisticInput → ProjectileAttack → ℤ × ℤ → FlightState
first_state input attack velocity = record {
  velocity_x = velocity.0;
  velocity_y = velocity.1;
  position = input.origin;
  samples = sample 0 input.origin ∷ [];
  bounces_remaining = attack.bounces;
}

-- Whenever a flight is computed, its power is in range, and the result is that of a whole flight from the
-- origin: tick by tick the velocity changes by the wind and gravity and the position by the velocity, each
-- place on the way is in the bounds, in the open and outside every character's circle, and a bounce off
-- solid ground stays in place and turns the velocity; it ends in solid ground with no bounce left, at a
-- character, outside the bounds or past the i32 range, or with the last tick. The last sample shows the end.
pub integrate-Lands :
    (input : BallisticInput) (attack : ProjectileAttack) (mask : TerrainMask)
    (circles : List (Text × FixedPoint × ℤ)) (r : BallisticResult)
    → integrate input attack mask circles ≡ ok r
    → (pos 1 ≤ℤ input.power_basis_points)
      × (input.power_basis_points ≤ℤ pos basis_points)
      × ((w : FlightWorld) × (start : FlightState) × IsLaunched input attack mask circles w start
          × Flies w start attack.max_ticks r)
      × Lands mask circles attack.max_ticks r
unfolding integrate
integrate-Lands input attack mask circles r h =
    elim (Bool-cases (is_out_of_range input.power_basis_points)) [
      | inl out ↦ cc (out)
      | inr within ↦
          let (max_x, e1, h1) = bind→ (bounds_max_x mask) _ (rw within at h) in
          let (max_y, e2, h2) = bind→ (bounds_max_y mask) _ h1 in
          let (velocity, e3, h3) = bind→ (launch_velocity attack input) _ h2 in
          let (wind, e4, h4) =
            bind→
              (ok_or (apply_basis_points input.wind_per_tick attack.wind_scale_basis_points)
                (overflow (text "ballistics::wind_acceleration")))
              _ h3 in
          let (flies, lands) =
            launch-Lands (world attack mask circles max_x max_y wind) attack.max_ticks
              (first_state input attack velocity) r h4
              (sample 0 input.origin, refl, omega arith, λ _. refl) in
          (
            ground (arith, within),
            ground (arith, within),
            (
              world attack mask circles max_x max_y wind,
              first_state input attack velocity,
              record {
                over = refl;
                among = refl;
                width = e1;
                height = e2;
                pull = refl;
                drift = ok_or→ _ _ wind e4;
                origin = refl;
                velocity = e3;
                bounces = refl;
              },
              flies,
            ),
            lands,
          )
    ]
