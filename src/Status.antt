-- ===== src/Status.antt =====
-- crates/db-sim-core/src/resolve/status.rs: statuses on a player, applied and ticked.
pub mod Duration
pub mod Apply
use dungeon_barrage.Base.{
  ◌-◌, Bool, not, ◌||◌, List, [], ◌∷◌, ◌++◌, map, filter, find, Option, none, some, if◌then◌else◌,
  ltb, leb, ◌==◌, Text,
}
use dungeon_barrage.Types.Ability.{EffectKind, guarantee_crit, kind_rank, kind_eq}
use dungeon_barrage.Types.Player.{
  PlayerState, StatusEffect, StatusChange, applied, refreshed, ticked, expired,
}
use dungeon_barrage.Types.State.{SimulationState, player, update_player}

-- The first status of a kind is overwritten.
unfoldable pub overwrite : StatusEffect → List StatusEffect → List StatusEffect
unfolding kind_eq
overwrite status [] = []
overwrite status (s ∷ ss) =
    if kind_eq s.kind status.kind then status ∷ ss else s ∷ overwrite status ss

-- A stable sort by kind.
unfoldable pub insert_by_kind : StatusEffect → List StatusEffect → List StatusEffect
unfolding kind_rank
insert_by_kind s [] = s ∷ []
insert_by_kind s (t ∷ ts) =
    if leb (kind_rank s.kind) (kind_rank t.kind) then s ∷ t ∷ ts else t ∷ insert_by_kind s ts

unfoldable pub sort_by_kind : List StatusEffect → List StatusEffect
unfolding insert_by_kind
sort_by_kind [] = []
sort_by_kind (s ∷ ss) = insert_by_kind s (sort_by_kind ss)

unfoldable pub find_kind : EffectKind → List StatusEffect → Option StatusEffect
unfolding kind_eq
find_kind kind = find (λ s. kind_eq s.kind kind)

-- The player with the status, and the record of the change.
unfoldable pub apply_status : PlayerState → StatusEffect → PlayerState × StatusChange
unfolding find_kind overwrite sort_by_kind
apply_status p status = elim (find_kind status.kind p.statuses) [
  | some existing ↦ (
    record p { statuses = sort_by_kind (overwrite status p.statuses) },
    record {
      player_id = p.id;
      kind = status.kind;
      transition =
          refreshed status.magnitude status.turns_remaining existing.magnitude
            existing.turns_remaining;
    },
  )
  | none ↦ (
    record p { statuses = sort_by_kind (p.statuses ++ status ∷ []) },
    record {
      player_id = p.id;
      kind = status.kind;
      transition = applied status.magnitude status.turns_remaining;
    },
  )
]

unfoldable pub is_charge : StatusEffect → Bool
unfolding kind_eq
is_charge s = kind_eq s.kind guarantee_crit

unfoldable pub tick_status : StatusEffect → StatusEffect
tick_status s = if is_charge s then s else record s { turns_remaining = s.turns_remaining - 1 }

unfoldable pub tick_change : Text → StatusEffect → StatusChange
tick_change id s = record {
  player_id = id;
  kind = s.kind;
  transition = if s.turns_remaining == 0 then expired else ticked s.turns_remaining;
}

unfoldable pub keeps : StatusEffect → Bool
keeps s = is_charge s || ltb 0 s.turns_remaining

-- The statuses after a tick, and what is reported of them.
unfoldable pub tick_list : List StatusEffect → List StatusEffect
unfolding tick_status keeps
tick_list ss = filter keeps (map tick_status ss)

unfoldable pub tick_changes : Text → List StatusEffect → List StatusChange
unfolding is_charge tick_status tick_change
tick_changes id ss = map (tick_change id) (filter (λ s. not (is_charge s)) (map tick_status ss))

unfoldable pub tick_statuses : SimulationState → Text → SimulationState × List StatusChange
unfolding player update_player tick_list tick_changes
tick_statuses s id = elim (player s id) [
  | none ↦ (s, [])
  | some p ↦ (
    update_player s id (λ q. record q { statuses = tick_list q.statuses }),
    tick_changes p.id p.statuses,
  )
]
