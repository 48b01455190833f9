-- ===== src/Types/Damage.antt =====
-- The damage of an ability, in crates/db-sim-core/src/types.rs.
use dungeon_barrage.Base.{ℕ, ◌*◌, ◌<◌, ◌^◌, ◌≡◌, ◌∙◌, refl, some, arith, pos, ◌*ℤ◌}
use dungeon_barrage.Fixed.{scale}
use dungeon_barrage.Fixed.Divide.{IsNearest, IsNearest-unique, scale_lem}
use dungeon_barrage.Types.Ability.{AbilityDefinition, damage, crit_damage}

product : (n : ℕ) → pos 100 *ℤ pos n ≡ pos (100 * n)
unfolding ◌*ℤ◌
product n = ground arith

percent_near : (n : ℕ) → IsNearest (pos 100 *ℤ pos n) 100 (pos n)
percent_near n =
    rw (product n) (record { at_most = omega arith; at_least = omega arith; signed = refl })

percent : (n : ℕ) → n < 2 ^ 31 → scale (pos 100) (pos n) (pos 100) ≡ some (pos n)
percent n h =
    let (q, near, e) =
      scale_lem (pos 100) (pos n) 100 (omega arith) (omega arith) (omega arith) (omega arith) in
    e
    ∙ rw (IsNearest-unique (pos 100 *ℤ pos n) 100 q (pos n) near (percent_near n))
        (ground (arith, h))

-- With percentages below 2 ^ 31 neither damage of an ability overflows, and each is its percentage in points.
pub damage_lem :
    (a : AbilityDefinition)
    → a.damage_percent < 2 ^ 31
    → a.crit_damage_percent < 2 ^ 31
    → (damage a ≡ some (pos a.damage_percent)) × (crit_damage a ≡ some (pos a.crit_damage_percent))
unfolding damage crit_damage
damage_lem a h k = (percent a.damage_percent h, percent a.crit_damage_percent k)
