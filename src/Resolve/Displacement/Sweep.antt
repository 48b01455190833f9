-- ===== src/Resolve/Displacement/Sweep.antt =====
-- The sweep of crates/db-sim-core/src/resolve/displacement.rs stops before the first solid cell.
use dungeon_barrage.Base.{
  ℕ, zero, suc, ◌<◌, ◌≤◌, ◌≡◌, ◌⊎◌, refl, ap, inl, inr, true, false, Option, none, some, arith,
  Bool-cases, min, ℤ, Text,
}
use dungeon_barrage.Fixed.{FixedPoint, saturating_add}
use dungeon_barrage.Error.{ok}
use dungeon_barrage.Types.Terrain.{TerrainMask}
use dungeon_barrage.Types.Player.{PlayerState}
use dungeon_barrage.Types.State.{player, update_player}
use dungeon_barrage.Types.Lookup.{player-update_player}
use dungeon_barrage.Terrain.{is_solid_at}
use dungeon_barrage.Movement.{to_u32}
use dungeon_barrage.Resolve.{ResolveContext}
use dungeon_barrage.Resolve.Displacement.{sweep_steps, sweep, sweep_count, max_sweep_steps}

-- The position after some steps, whatever is in the way.
unfoldable pub swept : FixedPoint → FixedPoint → ℕ → FixedPoint
swept position step zero = position
swept position step (suc k) = swept (saturating_add position step) step k

-- A sweep of at most `n` steps ends after `k`: all cells up to there are open, and it has taken all its
-- steps or the next cell is solid.
pub record StopsAt (terrain : TerrainMask) (step start : FixedPoint) (n k : ℕ) : Type 0 where
  pub at_most : k ≤ n
  pub open_way : (j : ℕ) → j < k → is_solid_at terrain (swept start step (suc j)) ≡ false
  pub stopped : (k ≡ n) ⊎ (is_solid_at terrain (swept start step (suc k)) ≡ true)

sweep_steps-StopsAt :
    (n : ℕ) (terrain : TerrainMask) (step start : FixedPoint)
    → (k : ℕ) × (sweep_steps n terrain step start ≡ swept start step k)
      × StopsAt terrain step start n k
unfolding sweep_steps swept
sweep_steps-StopsAt zero terrain step start = (
  0,
  refl,
  record { at_most = omega arith; open_way = λ j h. absurd (omega (arith, h)); stopped = inl refl },
)
sweep_steps-StopsAt (suc n) terrain step start =
    elim (Bool-cases (is_solid_at terrain (saturating_add start step))) [
      | inl wall ↦ (
        0,
        rw (sweep_steps, wall) refl,
        record {
          at_most = omega arith;
          open_way = λ j h. absurd (omega (arith, h));
          stopped = inr wall;
        },
      )
      | inr free ↦
          let (k, same, stops) = sweep_steps-StopsAt n terrain step (saturating_add start step) in
          (
            suc k,
            rw (sweep_steps, free) same,
            record {
              at_most = omega (arith, stops.at_most);
              open_way = way terrain step start k free stops.open_way;
              stopped = end n k stops.stopped;
            },
          )
    ]
  where
    way :
        (terrain : TerrainMask) (step start : FixedPoint) (k : ℕ)
        → is_solid_at terrain (saturating_add start step) ≡ false
        → ((j : ℕ)
            → j < k
            → is_solid_at terrain (swept (saturating_add start step) step (suc j)) ≡ false)
        → (j : ℕ) → j < suc k
        → is_solid_at terrain (swept start step (suc j)) ≡ false
    way terrain step start k free open_way zero h = free
    way terrain step start k free open_way (suc j) h = open_way j (omega (arith, h))

    end : {A : Type 0} (n k : ℕ) → (k ≡ n) ⊎ A → (suc k ≡ suc n) ⊎ A
    end n k (inl same) = inl (ap suc same)
    end n k (inr wall) = inr wall

sweep_count-le : (step : FixedPoint) (distance : ℤ) → sweep_count step distance ≤ max_sweep_steps
unfolding sweep_count
sweep_count-le step distance = capped _
  where
    capped :
        (o : Option ℤ)
        → elim o as (λ _. ℕ) [ none ↦ 0 | some n ↦ min (to_u32 n) max_sweep_steps ]
          ≤ max_sweep_steps
    capped none = omega arith
    capped (some n) = omega arith

-- The context with a player at a position.
abbrev moved_to : ResolveContext → Text → FixedPoint → ResolveContext
moved_to ctx id position = record ctx {
  state = update_player ctx.state id (λ q. record q { position = position });
}

-- A sweep of a known player succeeds, and ends after as many of its steps, 512 at most, as lead through
-- open cells only.
pub sweep-StopsAt :
    (ctx : ResolveContext) (id : Text) (p : PlayerState) (step : FixedPoint) (distance : ℤ)
    → player ctx.state id ≡ some p
    → (after : ResolveContext) × (k : ℕ) × (sweep ctx id step distance
        ≡ ok (after, swept p.position step k))
      × (player after.state id ≡ some (record p { position = swept p.position step k }))
      × StopsAt ctx.state.terrain step p.position (sweep_count step distance) k
      × (k ≤ max_sweep_steps)
unfolding sweep
sweep-StopsAt ctx id p step distance found =
    let (k, same, stops) =
      sweep_steps-StopsAt (sweep_count step distance) ctx.state.terrain step p.position in
    (
      moved_to ctx id (swept p.position step k),
      k,
      rw (sweep, found) (ap (λ q. ok (moved_to ctx id q, q)) same),
      player-update_player id (λ q. record q { position = swept p.position step k }) (λ q. refl)
          ctx.state p found,
      stops,
      few stops.at_most,
    )
  where
    few : {k : ℕ} → k ≤ sweep_count step distance → k ≤ max_sweep_steps
    few h = omega (arith, h, sweep_count-le step distance)
