-- ===== src/Movement/Walk.antt =====
-- How far `walk` of crates/db-sim-core/src/movement.rs goes.
use dungeon_barrage.Base.{
  ℕ, ◌+◌, ◌-◌, ◌^◌, ◌<◌, ◌≤◌, ◌≡◌, refl, ap, sym, subst, ◌∙◌, ◌⊎◌, ◌*◌, Bool, false, inl, inr, some,
  min, arith, Bool-cases, ℤ, pos, pos_part, negsuc, ◌-ℤ◌, leb_ℤ, ltb_ℤ, min_ℤ, max_ℤ, sat_i32,
  IsI32, Text,
}
use dungeon_barrage.Error.{ok}
use dungeon_barrage.Fixed.{FixedPoint}
use dungeon_barrage.Fixed.Divide.{abs}
use dungeon_barrage.Types.Player.{PlayerState}
use dungeon_barrage.Types.Terrain.{TerrainMask}
use dungeon_barrage.Types.State.{SimulationState, player, update_player}
use dungeon_barrage.Types.Lookup.{player-update_player}
use dungeon_barrage.Movement.Path.{
  direction_of, Treads, stays, IsWalled, walk_steps_lem, rounds_lem,
}
use dungeon_barrage.Movement.{
  move_step, max_walk_steps, is_locked_down, saturating_abs, steps_needed, walk_steps, walk_on,
  walk,
}

-- What a player may walk: the size of the request, or what is left of the allowance if that is less.
abbrev pub allowed : ℤ → ℤ → ℕ
allowed dx remaining = min (abs dx) (pos_part remaining)

budget_lem :
    (dx remaining : ℤ)
    → IsI32 dx
    → IsI32 remaining
    → (min_ℤ (saturating_abs dx) (max_ℤ remaining (pos 0)) ≡ pos (allowed dx remaining))
      × (allowed dx remaining < 2 ^ 31)
unfolding sat_i32
budget_lem (pos d) (pos r) h k = (ground (arith, h), omega (arith, h))
budget_lem (pos d) (negsuc r) h k = (ground arith, omega arith)
budget_lem (negsuc d) (pos r) h k = (ground (arith, h, k), omega (arith, k))
budget_lem (negsuc d) (negsuc r) h k = (ground arith, omega arith)

unsaturated : (r : ℤ) (t : ℕ) → IsI32 r → t ≤ pos_part r → sat_i32 (r -ℤ pos t) ≡ r -ℤ pos t
unfolding sat_i32 ◌-ℤ◌
unsaturated (pos r) t h k = ground arith
unsaturated (negsuc r) t h k = ground arith

idle : (r : ℤ) → r ≡ r -ℤ pos 0
unfolding ◌-ℤ◌
idle (pos r) = ground arith
idle (negsuc r) = ground arith

-- A walk of a distance to a place: along a way of steps, until the distance is all that is allowed, or there
-- is a wall, or the 2,048 rounds of the loop are used up.
pub record Walks (terrain : TerrainMask) (right : Bool) (start : FixedPoint) (most d : ℕ)
    (end : FixedPoint) : Type 0 where
  pub at_most : d ≤ most
  pub way : Treads terrain right start d end
  pub stopped :
      (d ≡ most) ⊎ (IsWalled terrain right end (min (most - d) 256) ⊎ (max_walk_steps * 256 ≤ d))

abbrev pub is_right : ℤ → Bool
is_right dx = ltb_ℤ (pos 0) dx

rounds : ℕ → ℕ
unfolding steps_needed
rounds b = min (steps_needed (pos b) (pos move_step)) max_walk_steps

steps-Walks :
    (terrain : TerrainMask) (right : Bool) (start : FixedPoint) (b : ℕ)
    → b < 2 ^ 31
    → (q : FixedPoint) × (d : ℕ) × (walk_steps
          (rounds b)
          terrain
          (direction_of right)
          (pos b)
          start
          (pos 0)
        ≡ (q, pos d))
      × Walks terrain right start b d q
unfolding rounds
steps-Walks terrain right start b small =
    let (q, d, e, most, way, stop) =
      walk_steps_lem (rounds b) terrain right b 0 start 0 (omega arith) small (inr (omega arith)) in
    (
      q,
      d,
      e ∙ ap (λ k. (q, pos k)) (omega arith),
      record {
        at_most = omega (arith, most);
        way = way;
        stopped = elim stop [
          | inl all' ↦ inl (omega (arith, all'))
          | inr (inl wall) ↦
              inr (inl (subst (λ k. IsWalled terrain right q (min (b - k) 256)) (zero_plus d) wall))
          | inr (inr spent) ↦ elim (rounds_lem b small) [
            | inl enough ↦ inl (omega (arith, most, spent, enough))
            | inr full ↦ inr (inr (omega (arith, spent, full)))
          ]
        ];
      },
    )
  where
    zero_plus : (k : ℕ) → 0 + k ≡ k
    zero_plus k = omega arith

-- What `walk_on` makes of the end of its loop.
walked : SimulationState → Text → FixedPoint × ℤ → SimulationState × ℤ
unfolding sat_i32 ◌-ℤ◌ update_player
walked s id r = (
  record s {
    players = (update_player s id (λ q. record q { position = r.0 })).players;
    movement_remaining = sat_i32 (s.movement_remaining -ℤ r.1);
  },
  r.1,
)

player-walked :
    (s : SimulationState) (id : Text) (p : PlayerState) (q : FixedPoint) (d : ℤ)
    → player s id ≡ some p
    → player (walked s id (q, d)).0 id ≡ some (record p { position = q })
unfolding walked update_player player
player-walked s id p q d found =
    player-update_player id (λ c. record c { position = q }) (λ c. refl) s p found

-- For an i32 request and an i32 rest of the allowance, a walk of a known player who is not locked down
-- succeeds. It goes in the direction of the request by steps of at most a quarter cell, each into an open
-- place at the height of the last one or, if that place is solid, onto a ledge one cell higher; it stops
-- with all of the request or of the allowance, or before a place that is solid on both heights, or after
-- 2,048 whole steps. The player is then at its end, and its length is taken off the allowance.
pub walk_lem :
    (s : SimulationState) (id : Text) (p : PlayerState) (dx : ℤ)
    → player s id ≡ some p
    → is_locked_down s id ≡ false
    → IsI32 dx
    → IsI32 s.movement_remaining
    → (t : SimulationState) × (d : ℕ) × (q : FixedPoint) × (walk s id dx ≡ ok (t, pos d))
      × (player t id ≡ some (record p { position = q }))
      × Walks s.terrain (is_right dx) p.position (allowed dx s.movement_remaining) d q
      × (t.movement_remaining ≡ s.movement_remaining -ℤ pos d)
unfolding walk walk_on walked rounds update_player
walk_lem s id p dx found free i k =
    let b = allowed dx s.movement_remaining in
    let (e, small) = budget_lem dx s.movement_remaining i k in
    elim (Bool-cases (leb_ℤ (pos b) (pos 0))) [
      | inl held ↦
          let none' : b ≡ 0 = ground (arith, held) in
          (
            s,
            0,
            p.position,
            rw (found, walk) (rw (free, e, held) refl),
            found,
            record { at_most = omega arith; way = stays p.position; stopped = inl (sym none') },
            idle s.movement_remaining,
          )
      | inr more ↦
          let (q, d, same, walks) = steps-Walks s.terrain (is_right dx) p.position b small in
          (
            (walked s id (q, pos d)).0,
            d,
            q,
            rw (found, walk) (rw (free, e, more) (ap (λ r. ok (walked s id r)) same)),
            player-walked s id p q (pos d) found,
            walks,
            unsaturated s.movement_remaining d k (omega (arith, walks.at_most)),
          )
    ]
