-- ===== src/Ballistics/Way.antt =====
-- The way of a flight of crates/db-sim-core/src/ballistics.rs, tick by tick.
use dungeon_barrage.Base.{
  ℕ, zero, suc, ◌+◌, ◌-◌, ◌<◌, ◌≡◌, refl, inl, inr, Bool, true, false, ◌||◌, [], ◌∷◌, In, any,
  arith, Bool-cases, if◌then◌else◌, ltb, ℤ, pos, neg, ◌+ℤ◌, leb_ℤ, ltb_ℤ, in_i32, checked_i32,
  subst,
}
use dungeon_barrage.Fixed.{FixedPoint, within_radius}
use dungeon_barrage.Types.Outcome.{
  ImpactCause, terrain, character, out_of_bounds, expired_flight, BallisticResult,
}
use dungeon_barrage.Terrain.{is_solid_at}
use dungeon_barrage.Ballistics.{
  FlightState, FlightWorld, Round, ended, flying, or_end, reflection_axes, reflected,
  terminal_result, bounce, fly_to, fly_tick, spent, fly,
}

abbrev pub is_outside : FlightWorld → FixedPoint → Bool
is_outside w p = ltb_ℤ p.x (pos 0) || leb_ℤ w.max_x p.x || leb_ℤ w.max_y p.y

abbrev pub is_struck : FlightWorld → FixedPoint → Bool
is_struck w p = any (λ c. within_radius p c.1 c.2) w.characters

module _ (w : FlightWorld) (f : FlightState) where
  -- The velocity after the acceleration of a tick, and where it leads.
  abbrev pub next_x : ℤ
  next_x = f.velocity_x +ℤ w.wind

  abbrev pub next_y : ℤ
  next_y = f.velocity_y +ℤ w.gravity

  abbrev pub target : FixedPoint
  target = record { x = f.position.x +ℤ next_x; y = f.position.y +ℤ next_y }

-- A tick on the way: to the next place, which is in the bounds, in the open and clear of the characters; or
-- a bounce off solid ground, which stays in place, turns the velocity and uses up a bounce.
pub data Moves (w : FlightWorld) (f g : FlightState) : Type 0 where
  onward :
      is_outside w (target w f) ≡ false
      → is_solid_at w.mask (target w f) ≡ false
      → is_struck w (target w f) ≡ false
      → g.position ≡ target w f
      → g.velocity_x ≡ next_x w f
      → g.velocity_y ≡ next_y w f
      → g.bounces_remaining ≡ f.bounces_remaining
      → Moves w f g
  bounced :
      is_outside w (target w f) ≡ false
      → is_solid_at w.mask (target w f) ≡ true
      → g.position ≡ f.position
      → g.velocity_x ≡ (
          if (reflection_axes f.position (target w f) w.mask).0
          then neg (next_x w f)
          else next_x w f)
      → g.velocity_y ≡ (
          if (reflection_axes f.position (target w f) w.mask).1
          then neg (next_y w f)
          else next_y w f)
      → g.bounces_remaining + 1 ≡ f.bounces_remaining
      → Moves w f g

-- How a tick ends a flight: in solid ground with no bounce left, at a character in the open, outside the
-- bounds, or in place where a number is past the i32 range.
pub data Ending (w : FlightWorld) (f : FlightState) (p : FixedPoint) : ImpactCause → Type 0 where
  in_ground :
      p ≡ target w f
      → is_outside w p ≡ false
      → is_solid_at w.mask p ≡ true
      → f.bounces_remaining ≡ 0
      → Ending w f p terrain
  at_character :
      p ≡ target w f
      → is_outside w p ≡ false
      → is_solid_at w.mask p ≡ false
      → is_struck w p ≡ true
      → Ending w f p character
  off_map : p ≡ target w f → is_outside w p ≡ true → Ending w f p out_of_bounds
  past_i32 :
      (v : ℤ)
      → p ≡ f.position
      → In v (
          next_x w f
          ∷ next_y w f
          ∷ (target w f).x
          ∷ (target w f).y
          ∷ neg (next_x w f)
          ∷ neg (next_y w f)
          ∷ [])
      → in_i32 v ≡ false
      → Ending w f p out_of_bounds

-- The flight after some ticks on the way.
pub data Flown (w : FlightWorld) (start : FlightState) : ℕ → FlightState → Type 0 where
  launched : Flown w start 0 start
  ticked : (k : ℕ) (f g : FlightState) → Flown w start k f → Moves w f g → Flown w start (k + 1) g

-- A whole flight of so many ticks at most: a way, and its end in the next tick, or with the last.
pub data Flies (w : FlightWorld) (start : FlightState) (final_tick : ℕ) (r : BallisticResult)
    : Type 0 where
  stopped :
      (k : ℕ) (f : FlightState)
      → Flown w start k f
      → k < final_tick
      → r.impact.tick ≡ k + 1
      → Ending w f r.impact.position r.impact.cause
      → Flies w start final_tick r
  spent_up :
      (f : FlightState)
      → Flown w start final_tick f
      → r.impact.tick ≡ final_tick
      → r.impact.position ≡ f.position
      → r.impact.cause ≡ expired_flight
      → Flies w start final_tick r

module _ (w : FlightWorld) (f : FlightState) (tick : ℕ) where
  abbrev Goes : Round → Type 0
  Goes (ended r) = (r.impact.tick ≡ tick) × Ending w f r.impact.position r.impact.cause
  Goes (flying g) = Moves w f g

  or_end-Goes :
      (v : ℤ) (h : FlightState) (go : ℤ → Round)
      → h.position ≡ f.position
      → In v (
          next_x w f
          ∷ next_y w f
          ∷ (target w f).x
          ∷ (target w f).y
          ∷ neg (next_x w f)
          ∷ neg (next_y w f)
          ∷ [])
      → Goes (go v)
      → Goes (or_end (checked_i32 v) h tick go)
  unfolding checked_i32 terminal_result
  or_end-Goes v h go same listed next = elim (Bool-cases (in_i32 v)) [
    | inl fits ↦ rw fits next
    | inr out ↦ rw out (refl, past_i32 v same listed out)
  ]

  reflected-Goes :
      (turn : Bool) (v : ℤ) (h : FlightState) (go : ℤ → Round)
      → h.position ≡ f.position
      → In (neg v) (
          next_x w f
          ∷ next_y w f
          ∷ (target w f).x
          ∷ (target w f).y
          ∷ neg (next_x w f)
          ∷ neg (next_y w f)
          ∷ [])
      → Goes (go (if turn then neg v else v))
      → Goes (or_end (reflected turn v) h tick go)
  unfolding reflected
  reflected-Goes true v h go same listed next = or_end-Goes (neg v) h go same listed next
  reflected-Goes false v h go same listed next = next

  -- The state in which `fly_tick` looks at the next place.
  abbrev sped : FlightState
  sped = record f { velocity_x = next_x w f; velocity_y = next_y w f }

  bounce-Goes :
      is_outside w (target w f) ≡ false
      → is_solid_at w.mask (target w f) ≡ true
      → ltb 0 f.bounces_remaining ≡ true
      → Goes (bounce w sped (target w f) tick)
  unfolding bounce
  bounce-Goes within solid left =
      reflected-Goes (reflection_axes f.position (target w f) w.mask).0 (next_x w f) sped _ refl
        (inr (inr (inr (inr (inl refl)))))
        (reflected-Goes (reflection_axes f.position (target w f) w.mask).1 (next_y w f) sped _ refl
          (inr (inr (inr (inr (inr (inl refl))))))
          (bounced within solid refl refl refl (one_less f.bounces_remaining left)))
    where
      one_less : (n : ℕ) → ltb 0 n ≡ true → n - 1 + 1 ≡ n
      one_less n h = ground (arith, h)

  fly_to-Goes : Goes (fly_to w sped (target w f) tick)
  unfolding fly_to terminal_result
  fly_to-Goes = elim (Bool-cases (is_outside w (target w f))) [
    | inl out ↦ rw out (refl, off_map refl out)
    | inr within ↦ elim (Bool-cases (is_solid_at w.mask (target w f))) [
      | inl solid ↦ elim (Bool-cases (ltb 0 f.bounces_remaining)) [
        | inl left ↦ rw (within, solid, left) (bounce-Goes within solid left)
        | inr none' ↦
            rw (within, solid, none')
              (refl, in_ground refl within solid (no_more f.bounces_remaining none'))
      ]
      | inr open' ↦ elim (Bool-cases (is_struck w (target w f))) [
        | inl hit ↦ rw (within, open', hit) (refl, at_character refl within open' hit)
        | inr clear ↦ rw (within, open', clear) (onward within open' clear refl refl refl refl)
      ]
    ]
  ]
    where
      no_more : (n : ℕ) → ltb 0 n ≡ false → n ≡ 0
      no_more n h = ground (arith, h)

  pub fly_tick-Goes : Goes (fly_tick w f tick)
  unfolding fly_tick
  fly_tick-Goes = or_end-Goes (next_x w f) f _ refl (inl refl) (
      or_end-Goes (next_y w f) f _ refl (inr (inl refl)) (
        or_end-Goes (target w f).x f _ refl (inr (inr (inl refl)))
          (or_end-Goes (target w f).y f _ refl (inr (inr (inr (inl refl)))) fly_to-Goes)))

module _ (w : FlightWorld) (start : FlightState) where
  -- From a state that the flight reaches, the rest of the loop ends it.
  pub fly-Flies :
      (n k : ℕ) (final_tick : ℕ) (f : FlightState)
      → k + n ≡ final_tick
      → Flown w start k f
      → Flies w start final_tick (fly w n (k + 1) f)
  unfolding fly spent
  fly-Flies zero k final_tick f e way =
      let at : k ≡ final_tick = omega (arith, e) in
      let last : k + 1 - 1 ≡ final_tick = omega (arith, e) in
      spent_up f (subst (λ m. Flown w start m f) at way) last refl refl
  fly-Flies (suc n) k final_tick f e way =
      go (fly_tick w f (k + 1)) (fly_tick-Goes w f (k + 1))
        (λ g moves. fly-Flies n (k + 1) final_tick g (omega (arith, e)) (ticked k f g way moves))
    where
      go :
          (o : Round)
          → Goes w f (k + 1) o
          → ((g : FlightState) → Moves w f g → Flies w start final_tick (fly w n (k + 1 + 1) g))
          → Flies w start final_tick (elim o [ ended r ↦ r | flying g ↦ fly w n (k + 1 + 1) g ])
      go (ended r) (at, end) rest = stopped k f way (omega (arith, e)) at end
      go (flying g) moves rest = rest g moves
