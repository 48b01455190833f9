-- ===== src/Victory.antt =====
-- crates/db-sim-core/src/victory.rs: elimination, the cleanup of owned objects, and the outcome.
pub mod Outcome
pub mod Cleanup
use dungeon_barrage.Base.{
  ℕ, Bool, true, false, not, List, [], ◌∷◌, ◌++◌, map, filter, none, some, if◌then◌else◌, ltb, ◌==◌,
  Text, text_eq,
}
use dungeon_barrage.Error.{SimResult, ok, err, unknown_definition}
use dungeon_barrage.Types.Player.{
  PlayerState, is_eliminated, PersistentObject, PersistentObjectChange, removed, owner_eliminated,
}
use dungeon_barrage.Types.State.{
  SimulationState, MatchOutcome, in_progress, victory, draw, match_complete, player, update_player,
}

-- Insertion into a `BTreeSet`, as its ascending list.
unfoldable pub insert_team : ℕ → List ℕ → List ℕ
insert_team t [] = t ∷ []
insert_team t (u ∷ us) =
    if ltb t u then t ∷ u ∷ us else if t == u then u ∷ us else u ∷ insert_team t us

-- The loop of `living_teams` and its body.
unfoldable pub visit_player : List ℕ → PlayerState → List ℕ
unfolding insert_team is_eliminated
visit_player teams p = if is_eliminated p then teams else insert_team p.team teams

unfoldable pub collect_teams : List ℕ → List PlayerState → List ℕ
unfolding visit_player
collect_teams teams [] = teams
collect_teams teams (p ∷ ps) = collect_teams (visit_player teams p) ps

unfoldable pub living_teams : SimulationState → List ℕ
unfolding collect_teams
living_teams s = collect_teams [] s.players

unfoldable pub outcome_of : List ℕ → MatchOutcome
outcome_of [] = draw
outcome_of (t ∷ []) = victory t
outcome_of (t ∷ u ∷ us) = in_progress

unfoldable pub evaluate : SimulationState → MatchOutcome
unfolding living_teams outcome_of
evaluate s = outcome_of (living_teams s)

unfoldable pub removal : PersistentObject → PersistentObjectChange
removal o = record { object = o; transition = removed owner_eliminated }

unfoldable pub owned_by : Text → PersistentObject → Bool
unfolding text_eq
owned_by id o = text_eq o.owner_id id

unfoldable pub remove_owned_objects :
    Text
    → List PersistentObject × List PersistentObjectChange
    → List PersistentObject × List PersistentObjectChange
unfolding removal owned_by
remove_owned_objects id (objects, changes) = (
  filter (λ o. not (owned_by id o)) objects,
  changes ++ map removal (filter (owned_by id) objects),
)

unfoldable pub eliminate :
    SimulationState
    → Text
    → List PersistentObjectChange
    → SimResult (SimulationState × List PersistentObjectChange)
unfolding player update_player remove_owned_objects
eliminate s id changes = elim (player s id) [
  | none ↦ err unknown_definition
  | some _ ↦
      let dead = update_player s id (λ p. record p { health = 0 }) in
      let (objects, changes') = remove_owned_objects id (dead.objects, changes) in
      ok (record dead { objects = objects }, changes')
]

unfoldable pub eliminated_ids : List PlayerState → List Text
unfolding is_eliminated
eliminated_ids ps = map (λ p. p.id) (filter is_eliminated ps)

unfoldable pub remove_all :
    List Text
    → List PersistentObject × List PersistentObjectChange
    → List PersistentObject × List PersistentObjectChange
unfolding remove_owned_objects
remove_all [] r = r
remove_all (id ∷ ids) r = remove_all ids (remove_owned_objects id r)

unfoldable pub is_in_progress : MatchOutcome → Bool
is_in_progress in_progress = true
is_in_progress _ = false

-- It never fails; the source returns a `SimResult` by convention.
unfoldable pub check_and_finalize :
    SimulationState
    → List PersistentObjectChange
    → SimResult (SimulationState × List PersistentObjectChange × MatchOutcome)
unfolding eliminated_ids remove_all evaluate is_in_progress
check_and_finalize s changes =
    let (objects, changes') = remove_all (eliminated_ids s.players) (s.objects, changes) in
    let cleaned = record s { objects = objects } in
    let outcome = evaluate cleaned in
    ok (
      if is_in_progress outcome then cleaned else record cleaned { phase = match_complete },
      changes',
      outcome,
    )
