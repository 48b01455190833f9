-- ===== src/Ballistics.antt =====
-- crates/db-sim-core/src/ballistics.rs: the flight of a projectile, tick by tick.
pub mod Sine
pub mod Way
pub mod Samples
pub mod Flight
use dungeon_barrage.Base.{
  ℕ, zero, suc, ◌+◌, ◌-◌, ◌*◌, ◌%◌, ◌/◌, Bool, true, false, ◌&&◌, ◌||◌, List, [], ◌∷◌, ◌++◌, Option,
  none, some, any, if◌then◌else◌, ltb, ◌==◌, ℤ, pos, negsuc, neg, ◌+ℤ◌, ◌*ℤ◌, leb_ℤ, ltb_ℤ,
  checked_i32, Text, text,
}
use dungeon_barrage.Fixed.{
  FixedPoint, position_scale, basis_points, scale, apply_basis_points, within_radius,
}
use dungeon_barrage.Error.{SimError, SimResult, ok, err, overflow, out_of_range, ok_or, ◌>>=◌}
use dungeon_barrage.Types.Ability.{ProjectileAttack}
use dungeon_barrage.Types.Terrain.{TerrainMask}
use dungeon_barrage.Types.Outcome.{
  BallisticSample, ImpactCause, terrain, character, out_of_bounds, expired_flight, BallisticImpact,
  BallisticInput, BallisticResult,
}
use dungeon_barrage.Terrain.{is_solid_at}
use Sine.{sin_scale, sine_scaled, cosine_scaled}

abbrev pub sample_stride : ℕ
sample_stride = 4

unfoldable pub tick_on_stride : ℕ → Bool
tick_on_stride tick = tick % sample_stride == 0

-- The axes to turn back on: those on which the move alone is blocked, or both.
unfoldable pub reflection_axes : FixedPoint → FixedPoint → TerrainMask → Bool × Bool
unfolding is_solid_at
reflection_axes prev next mask =
    let reflect_x = is_solid_at mask (record { x = next.x; y = prev.y }) in
    let reflect_y = is_solid_at mask (record { x = prev.x; y = next.y }) in
    if reflect_x || reflect_y then (reflect_x, reflect_y) else (true, true)

-- The first position beyond a side of so many cells.
unfoldable pub bounds_max : ℕ → Text → Text → SimResult ℤ
unfolding checked_i32 ◌*ℤ◌
bounds_max cells too_many too_far = do
  side ← ok_or (checked_i32 (pos cells)) (overflow too_many)
  ok_or (checked_i32 (side *ℤ pos position_scale)) (overflow too_far)

unfoldable pub bounds_max_x : TerrainMask → SimResult ℤ
unfolding bounds_max
bounds_max_x mask =
    bounds_max mask.width (text "ballistics::bounds_max_x_width") (text "ballistics::bounds_max_x")

unfoldable pub bounds_max_y : TerrainMask → SimResult ℤ
unfolding bounds_max
bounds_max_y mask =
    bounds_max mask.height (text "ballistics::bounds_max_y_height")
      (text "ballistics::bounds_max_y")

unfoldable pub launch_velocity : ProjectileAttack → BallisticInput → SimResult (ℤ × ℤ)
unfolding scale sine_scaled cosine_scaled checked_i32 neg
launch_velocity attack input = do
  speed ←
      ok_or (scale attack.speed_per_tick input.power_basis_points (pos basis_points))
        (overflow (text "ballistics::launch_speed"))
  cosine ← cosine_scaled input.angle_millidegrees
  sine ← sine_scaled input.angle_millidegrees
  velocity_x ←
      ok_or (scale speed cosine (pos sin_scale)) (overflow (text "ballistics::velocity_x_launch"))
  raw_velocity_y ←
      ok_or (scale speed sine (pos sin_scale)) (overflow (text "ballistics::velocity_y_launch"))
  velocity_y ←
      ok_or (checked_i32 (neg raw_velocity_y))
        (overflow (text "ballistics::velocity_y_launch_negate"))
  ok (velocity_x, velocity_y)

abbrev pub sample : ℕ → FixedPoint → BallisticSample
sample tick position = record { tick = tick; position = position }

unfoldable pub terminal_result :
    List BallisticSample → FixedPoint → ℕ → ImpactCause → BallisticResult
terminal_result samples position tick cause = record {
  samples = samples ++ sample tick position ∷ [];
  impact = record { position = position; tick = tick; cause = cause };
}

-- The variables of the loop.
pub record FlightState : Type 0 where
  pub velocity_x : ℤ
  pub velocity_y : ℤ
  pub position : FixedPoint
  pub samples : List BallisticSample
  pub bounces_remaining : ℕ

-- What stays the same during a flight: the acceleration, the bounds, the terrain and the circles of
-- the characters.
pub record FlightWorld : Type 0 where
  pub wind : ℤ
  pub gravity : ℤ
  pub max_x : ℤ
  pub max_y : ℤ
  pub mask : TerrainMask
  pub characters : List (Text × FixedPoint × ℤ)

-- A round of the loop ends the flight or goes on.
pub data Round : Type 0 where
  ended : BallisticResult → Round
  flying : FlightState → Round

abbrev pub ended_at : FlightState → FixedPoint → ℕ → ImpactCause → Round
ended_at f position tick cause = ended (terminal_result f.samples position tick cause)

-- A checked result, or the end of the flight where it is.
abbrev pub or_end : Option ℤ → FlightState → ℕ → (ℤ → Round) → Round
or_end none f tick go = ended_at f f.position tick out_of_bounds
or_end (some v) f tick go = go v

unfoldable pub reflected : Bool → ℤ → Option ℤ
unfolding checked_i32 neg
reflected turns v = if turns then checked_i32 (neg v) else some v

-- A bounce keeps the position.
unfoldable pub bounce : FlightWorld → FlightState → FixedPoint → ℕ → Round
bounce w f candidate tick =
    let (turn_x, turn_y) = reflection_axes f.position candidate w.mask in
    or_end (reflected turn_x f.velocity_x) f tick λ vx.
      or_end (reflected turn_y f.velocity_y) f tick λ vy. flying (record f {
        velocity_x = vx;
        velocity_y = vy;
        samples = f.samples ++ sample tick f.position ∷ [];
        bounces_remaining = f.bounces_remaining - 1;
      })

-- The move to a candidate: out of bounds, into the ground, into a character, or on.
unfoldable pub fly_to : FlightWorld → FlightState → FixedPoint → ℕ → Round
fly_to w f candidate tick =
    if ltb_ℤ candidate.x (pos 0) || leb_ℤ w.max_x candidate.x || leb_ℤ w.max_y candidate.y
    then ended_at f candidate tick out_of_bounds
    else if is_solid_at w.mask candidate
    then (if ltb 0 f.bounces_remaining
        then bounce w f candidate tick
        else ended_at f candidate tick terrain)
    else if any (λ c. within_radius candidate c.1 c.2) w.characters
    then ended_at f candidate tick character
    else flying (record f {
      position = candidate;
      samples = if tick_on_stride tick then f.samples ++ sample tick candidate ∷ [] else f.samples;
    })

unfoldable pub fly_tick : FlightWorld → FlightState → ℕ → Round
fly_tick w f tick = or_end (checked_i32 (f.velocity_x +ℤ w.wind)) f tick λ vx.
    or_end (checked_i32 (f.velocity_y +ℤ w.gravity)) f tick λ vy.
      or_end (checked_i32 (f.position.x +ℤ vx)) f tick λ x.
        or_end (checked_i32 (f.position.y +ℤ vy)) f tick λ y.
          fly_to w (record f { velocity_x = vx; velocity_y = vy }) (record { x = x; y = y }) tick

-- Whether the last sample is not of the tick.
unfoldable pub lacks_tick : ℕ → List BallisticSample → Bool
lacks_tick tick [] = true
lacks_tick tick (s ∷ []) = if s.tick == tick then false else true
lacks_tick tick (s ∷ t ∷ ss) = lacks_tick tick (t ∷ ss)

-- The flight that is not over after the last tick.
unfoldable pub spent : FlightState → ℕ → BallisticResult
unfolding lacks_tick
spent f tick = record {
  samples =
      if lacks_tick tick f.samples then f.samples ++ sample tick f.position ∷ [] else f.samples;
  impact = record { position = f.position; tick = tick; cause = expired_flight };
}

-- So many rounds, from a tick on.
unfoldable pub fly : FlightWorld → ℕ → ℕ → FlightState → BallisticResult
fly w zero tick f = spent f (tick - 1)
fly w (suc n) tick f = elim (fly_tick w f tick) [ ended r ↦ r | flying g ↦ fly w n (tick + 1) g ]

unfoldable pub integrate :
    BallisticInput
    → ProjectileAttack
    → TerrainMask
    → List (Text × FixedPoint × ℤ)
    → SimResult BallisticResult
integrate input attack mask characters =
    if ltb_ℤ input.power_basis_points (pos 1) || ltb_ℤ (pos basis_points) input.power_basis_points
    then err (out_of_range (text "power_basis_points"))
    else (do
      max_x ← bounds_max_x mask
      max_y ← bounds_max_y mask
      velocity ← launch_velocity attack input
      wind ←
          ok_or (apply_basis_points input.wind_per_tick attack.wind_scale_basis_points)
            (overflow (text "ballistics::wind_acceleration"))
      ok (
          fly
            (record {
              wind = wind;
              gravity = attack.gravity_per_tick;
              max_x = max_x;
              max_y = max_y;
              mask = mask;
              characters = characters;
            })
            attack.max_ticks 1
            (record {
              velocity_x = velocity.0;
              velocity_y = velocity.1;
              position = input.origin;
              samples = sample 0 input.origin ∷ [];
              bounces_remaining = attack.bounces;
            })))
