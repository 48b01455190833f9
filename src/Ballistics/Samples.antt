-- ===== src/Ballistics/Samples.antt =====
-- What the samples of a flight of crates/db-sim-core/src/ballistics.rs show, and where its end lies.
use dungeon_barrage.Base.{
  ℕ, zero, suc, ◌+◌, ◌-◌, ◌≤◌, ◌<◌, ◌≡◌, refl, ap, ◌∙◌, inl, inr, Bool, true, false, not, List, [],
  ◌∷◌, ◌++◌, Option, none, some, any, arith, Bool-cases, ◌==◌, ==_iff, subst, ℤ, Text, checked_i32,
  ◌+ℤ◌, ltb, if◌then◌else◌, ◌⊎◌,
}
use dungeon_barrage.Fixed.{FixedPoint, within_radius}
use dungeon_barrage.Types.Terrain.{TerrainMask}
use dungeon_barrage.Types.Outcome.{
  BallisticSample, ImpactCause, terrain, character, out_of_bounds, expired_flight, BallisticResult,
}
use dungeon_barrage.Terrain.{is_solid_at}
use dungeon_barrage.Ballistics.Way.{is_outside}
use dungeon_barrage.Ballistics.{
  FlightState, FlightWorld, Round, ended, flying, or_end, reflection_axes, reflected,
  tick_on_stride, sample, terminal_result, bounce, fly_to, fly_tick, lacks_tick, spent, fly,
}

abbrev pub last {ℓ} : {A : Type ℓ} → List A → Option A
last [] = none
last (x ∷ []) = some x
last (x ∷ y ∷ ys) = last (y ∷ ys)

last-append {ℓ} : {A : Type ℓ} (xs : List A) (a : A) → last (xs ++ a ∷ []) ≡ some a
last-append [] a = refl
last-append (x ∷ []) a = refl
last-append (x ∷ y ∷ ys) a = last-append (y ∷ ys) a

lacks_tick_lem :
    (tick : ℕ) (ss : List BallisticSample) (s : BallisticSample)
    → last ss ≡ some s
    → lacks_tick tick ss ≡ not (s.tick == tick)
unfolding lacks_tick
lacks_tick_lem tick [] s h = cc
lacks_tick_lem tick (s' ∷ []) s h = ground arith
lacks_tick_lem tick (s' ∷ t ∷ ss) s h = lacks_tick_lem tick (t ∷ ss) s h

-- What has stopped a flight in a world, by the cause that its end reports: a solid cell, or a
-- character's circle in the open. Out of bounds is also the end of a flight past the i32 range.
abbrev pub IsStopped :
    TerrainMask → List (Text × FixedPoint × ℤ) → FixedPoint → ImpactCause → Type 0
IsStopped mask circles p terrain = is_solid_at mask p ≡ true
IsStopped mask circles p character =
    (is_solid_at mask p ≡ false) × (any (λ c. within_radius p c.1 c.2) circles ≡ true)
IsStopped mask circles p out_of_bounds = Unit
IsStopped mask circles p expired_flight = ⊥

-- The last sample is older than the next tick, and that of the tick before shows the position.
abbrev pub IsSampled : ℕ → FlightState → Type 0
IsSampled tick f =
    (s : BallisticSample) × (last f.samples ≡ some s)
    × (s.tick < tick)
    × (s.tick + 1 ≡ tick → s.position ≡ f.position)

-- A flight's end: its tick, its last sample, its cause.
pub record EndsAt (w : FlightWorld) (tick : ℕ) (r : BallisticResult) : Type 0 where
  pub at_tick : r.impact.tick ≡ tick
  pub shown : last r.samples ≡ some (sample r.impact.tick r.impact.position)
  pub stopped : IsStopped w.mask w.characters r.impact.position r.impact.cause

abbrev RoundIs : FlightWorld → ℕ → Round → Type 0
RoundIs w tick (ended r) = EndsAt w tick r
RoundIs w tick (flying f) = IsSampled (tick + 1) f

module _ (w : FlightWorld) (tick : ℕ) where
  ended_at-EndsAt :
      (f : FlightState) (p : FixedPoint) (cause : ImpactCause)
      → IsStopped w.mask w.characters p cause
      → EndsAt w tick (terminal_result f.samples p tick cause)
  unfolding terminal_result
  ended_at-EndsAt f p cause h = record {
    at_tick = refl;
    shown = last-append f.samples (sample tick p);
    stopped = h;
  }

  or_end-RoundIs :
      (o : Option ℤ) (f : FlightState) (go : ℤ → Round)
      → ((v : ℤ) → RoundIs w tick (go v))
      → RoundIs w tick (or_end o f tick go)
  or_end-RoundIs none f go h = ended_at-EndsAt f f.position out_of_bounds tt
  or_end-RoundIs (some v) f go h = h v

  bounce-RoundIs :
      (f : FlightState) (candidate : FixedPoint) → RoundIs w tick (bounce w f candidate tick)
  unfolding bounce
  bounce-RoundIs f candidate =
      let (turn_x, turn_y) = reflection_axes f.position candidate w.mask in
      or_end-RoundIs (reflected turn_x f.velocity_x) f _ λ vx.
        or_end-RoundIs (reflected turn_y f.velocity_y) f _
          λ vy. (sample tick f.position, last-append f.samples _, omega arith, λ _. refl)

  advance-IsSampled :
      (f : FlightState) (candidate : FixedPoint) (b : Bool)
      → IsSampled tick f
      → RoundIs w tick (
          flying (record f {
            position = candidate;
            samples = if b then f.samples ++ sample tick candidate ∷ [] else f.samples;
          }))
  advance-IsSampled f candidate true h =
      (sample tick candidate, last-append f.samples _, omega arith, λ _. refl)
  advance-IsSampled f candidate false (s, e, lt, shows) =
      (s, e, omega arith, λ e'. absurd (omega arith))

  fly_to-RoundIs :
      (f : FlightState) (candidate : FixedPoint)
      → IsSampled tick f
      → RoundIs w tick (fly_to w f candidate tick)
  unfolding fly_to
  fly_to-RoundIs f candidate h = elim (Bool-cases (is_outside w candidate)) [
    | inl out ↦ rw out (ended_at-EndsAt f candidate out_of_bounds tt)
    | inr within ↦ elim (Bool-cases (is_solid_at w.mask candidate)) [
      | inl solid ↦ elim (Bool-cases (ltb 0 f.bounces_remaining)) [
        | inl left ↦ rw (within, solid, left) (bounce-RoundIs f candidate)
        | inr none' ↦ rw (within, solid, none') (ended_at-EndsAt f candidate terrain solid)
      ]
      | inr open' ↦ elim (Bool-cases (any (λ c. within_radius candidate c.1 c.2) w.characters)) [
        | inl hit ↦ rw (within, open', hit) (ended_at-EndsAt f candidate character (open', hit))
        | inr clear ↦
            rw (within, open', clear) (advance-IsSampled f candidate (tick_on_stride tick) h)
      ]
    ]
  ]

  fly_tick-RoundIs : (f : FlightState) → IsSampled tick f → RoundIs w tick (fly_tick w f tick)
  unfolding fly_tick
  fly_tick-RoundIs f h = or_end-RoundIs (checked_i32 (f.velocity_x +ℤ w.wind)) f _ λ vx.
      or_end-RoundIs (checked_i32 (f.velocity_y +ℤ w.gravity)) f _ λ vy.
        or_end-RoundIs (checked_i32 (f.position.x +ℤ vx)) f _ λ x.
          or_end-RoundIs (checked_i32 (f.position.y +ℤ vy)) f _ λ y.
            fly_to-RoundIs (record f { velocity_x = vx; velocity_y = vy }) (record { x = x; y = y })
              h

-- A flight ends by the last of its ticks at a position that its last sample shows, stopped as the
-- cause has it, or else with the last tick.
pub record Lands (mask : TerrainMask) (circles : List (Text × FixedPoint × ℤ)) (final_tick : ℕ)
    (r : BallisticResult) : Type 0 where
  pub in_time : r.impact.tick ≤ final_tick
  pub shown : last r.samples ≡ some (sample r.impact.tick r.impact.position)
  pub stopped :
      IsStopped mask circles r.impact.position r.impact.cause
      ⊎ ((r.impact.cause ≡ expired_flight) × (r.impact.tick ≡ final_tick))

spent-Lands :
    (w : FlightWorld) (f : FlightState) (tick : ℕ)
    → IsSampled (tick + 1) f
    → Lands w.mask w.characters tick (spent f tick)
unfolding spent
spent-Lands w f tick (s, e, lt, shows) = record {
  in_time = omega arith;
  shown = elim (Bool-cases (s.tick == tick)) [
    | inl same ↦
        let at : s.tick ≡ tick = (==_iff s.tick tick).0 same in
        let shown : s ≡ sample tick f.position =
          λ i. record { tick = at i; position = shows (ap (λ k. k + 1) at) i } in
        rw (lacks_tick_lem tick f.samples s e, same) (e ∙ ap some shown)
    | inr other ↦
        rw (lacks_tick_lem tick f.samples s e, other)
          (last-append f.samples (sample tick f.position))
  ];
  stopped = inr (refl, refl);
}

EndsAt-Lands :
    (w : FlightWorld) (tick final_tick : ℕ) (r : BallisticResult)
    → tick ≤ final_tick
    → EndsAt w tick r
    → Lands w.mask w.characters final_tick r
EndsAt-Lands w tick final_tick r le h = record {
  in_time = let e = h.at_tick in omega arith;
  shown = h.shown;
  stopped = inl h.stopped;
}

round-Lands :
    (w : FlightWorld) (n tick final_tick : ℕ) (o : Round)
    → tick ≤ final_tick
    → ((g : FlightState)
        → IsSampled (tick + 1) g
        → Lands w.mask w.characters final_tick (fly w n (tick + 1) g))
    → RoundIs w tick o
    → Lands w.mask w.characters final_tick
        (elim o [ ended r ↦ r | flying g ↦ fly w n (tick + 1) g ])
round-Lands w n tick final_tick (ended r) le ih h = EndsAt-Lands w tick final_tick r le h
round-Lands w n tick final_tick (flying g) le ih h = ih g h

pub fly-Lands :
    (w : FlightWorld) (n tick final_tick : ℕ) (f : FlightState)
    → tick + n ≡ final_tick + 1
    → 1 ≤ tick
    → IsSampled tick f
    → Lands w.mask w.characters final_tick (fly w n tick f)
unfolding fly
fly-Lands w zero tick final_tick f e first h =
    let was : final_tick ≡ tick - 1 = omega arith in
    let next : tick ≡ final_tick + 1 = omega arith in
    subst (λ k. Lands w.mask w.characters final_tick (spent f k)) was
      (spent-Lands w f final_tick (subst (λ k. IsSampled k f) next h))
fly-Lands w (suc n) tick final_tick f e first h =
    round-Lands w n tick final_tick (fly_tick w f tick) (omega arith)
      (λ g hg. fly-Lands w n (tick + 1) final_tick g (omega arith) (omega arith) hg)
      (fly_tick-RoundIs w tick f h)
