-- ===== src/Victory/Cleanup.antt =====
-- Elimination and the cleanup of owned objects in crates/db-sim-core/src/victory.rs.
use mathlib.Core.List.{append-nil}
use dungeon_barrage.Base.{
  ◌≡◌, ◌∙◌, refl, ap, inl, inr, Bool, true, false, not, List, [], ◌∷◌, ◌++◌, map, filter, any, ◌&&◌,
  ◌||◌, ◌==◌, All, All-map, All-filter_self, filter-filter, filter-filter-not, none, some, arith,
  Bool-cases, length, length-append, length-filter-not, length-map, ◌+◌, Text, text_eq, find,
  if◌then◌else◌,
}
use dungeon_barrage.Error.{ok, err, unknown_definition}
use dungeon_barrage.Types.Player.{
  PlayerState, is_eliminated, PersistentObject, PersistentObjectChange,
}
use dungeon_barrage.Types.State.{
  SimulationState, MatchPhase, match_complete, MatchOutcome, in_progress, victory, draw, player,
  update_first,
}
use dungeon_barrage.Victory.Outcome.{OutcomeIs, evaluate-OutcomeIs}
use dungeon_barrage.Victory.{
  owned_by, removal, eliminate, eliminated_ids, remove_all, evaluate, check_and_finalize,
  is_in_progress,
}

abbrev pub zero_health : PlayerState → PlayerState
zero_health p = record p { health = 0 }

update_first_idem :
    (id : Text) (ps : List PlayerState)
    → update_first id zero_health (update_first id zero_health ps) ≡ update_first id zero_health ps
unfolding update_first
update_first_idem id [] = refl
update_first_idem id (p ∷ ps) = elim (Bool-cases (text_eq p.id id)) [
  | inl same ↦ rw (same, same)
  | inr other ↦ rw (other, other, update_first_idem id ps)
]

find-update_first :
    (id : Text) (ps : List PlayerState) (p : PlayerState)
    → find (λ q. text_eq q.id id) ps ≡ some p
    → find (λ q. text_eq q.id id) (update_first id zero_health ps) ≡ some (zero_health p)
unfolding update_first
find-update_first id [] p h = cc
find-update_first id (q ∷ ps) p h = elim (Bool-cases (text_eq q.id id)) [
  | inl same ↦
      let e : q ≡ p = ground (arith, same) in rw (same, same) (ap (λ r. some (zero_health r)) e)
  | inr other ↦ rw (other, other) (find-update_first id ps p (ground (arith, other)))
]

not-true : (b : Bool) → not b ≡ true → b ≡ false
not-true true h = cc
not-true false h = refl

abbrev pub without : SimulationState → Text → SimulationState
without s id = record s {
  players = update_first id zero_health s.players;
  objects = filter (λ o. not (owned_by id o)) s.objects;
}

-- A write that keeps the names.
pub names-update_first :
    (id : Text) (f : PlayerState → PlayerState) (ps : List PlayerState)
    → ((p : PlayerState) → (f p).id ≡ p.id)
    → map (λ p. p.id) (update_first id f ps) ≡ map (λ p. p.id) ps
unfolding update_first
names-update_first id f [] h = refl
names-update_first id f (p ∷ ps) h = elim (Bool-cases (text_eq p.id id)) [
  | inl same ↦ rw (same, h p)
  | inr other ↦ rw (other, names-update_first id f ps h)
]

-- An unknown name is an error.
pub eliminate_unknown :
    (s : SimulationState) (id : Text) (changes : List PersistentObjectChange)
    → player s id ≡ none
    → eliminate s id changes ≡ err unknown_definition
unfolding eliminate
eliminate_unknown s id changes h = rw (h, eliminate)

pub eliminate-without :
    (s : SimulationState) (id : Text) (p : PlayerState) (changes : List PersistentObjectChange)
    → player s id ≡ some p
    → eliminate s id changes
      ≡ ok (without s id, changes ++ map removal (filter (owned_by id) s.objects))
unfolding eliminate
eliminate-without s id p changes h = rw (h, eliminate)

-- A known player is left with no health and no objects, the removals are appended in the order of
-- the objects, and a second elimination changes nothing.
pub eliminate-player :
    (s : SimulationState) (id : Text) (p : PlayerState)
    (changes later : List PersistentObjectChange)
    → player s id ≡ some p
    → (t : SimulationState) × (eliminate s id changes
        ≡ ok (t, changes ++ map removal (filter (owned_by id) s.objects)))
      × (player t id ≡ some (record p { health = 0 }))
      × All (λ o. owned_by id o ≡ false) t.objects
      × (eliminate t id later ≡ ok (t, later))
unfolding eliminate
eliminate-player s id p changes later h = (
  without s id,
  rw (h, eliminate),
  found,
  All-map (without s id).objects (λ o k. not-true (owned_by id o) k)
      (All-filter_self (λ o. not (owned_by id o)) s.objects),
  rw (found, eliminate)
      (rw (
        update_first_idem id s.players,
        filter-filter (λ o. not (owned_by id o)) s.objects,
        filter-filter-not (owned_by id) s.objects,
        append-nil later,
      )),
)
  where
    found : player (without s id) id ≡ some (record p { health = 0 })
    found = unfold player in find-update_first id s.players p (unfold player in h)

-- The objects that some of the names own.
abbrev pub owned_by_any : List Text → PersistentObject → Bool
owned_by_any ids o = any (λ id. owned_by id o) ids

remove_all_counts :
    (ids : List Text) (objects : List PersistentObject) (changes : List PersistentObjectChange)
    → let (left, reported) = remove_all ids (objects, changes) in
      length reported + length left ≡ length changes + length objects
unfolding remove_all
remove_all_counts [] objects changes = refl
remove_all_counts (id ∷ ids) objects changes = omega (
  arith,
  remove_all_counts ids (filter (λ o. not (owned_by id o)) objects)
      (changes ++ map removal (filter (owned_by id) objects)),
  length-append changes (map removal (filter (owned_by id) objects)),
  length-map removal (filter (owned_by id) objects),
  length-filter-not (owned_by id) objects,
)

-- Whether one of the players owns the object and has no health left.
abbrev pub has_dead_owner : List PlayerState → PersistentObject → Bool
has_dead_owner ps o = any (λ p. p.health == 0 && text_eq o.owner_id p.id) ps

owned_by_any-eliminated :
    (ps : List PlayerState) (o : PersistentObject)
    → owned_by_any (eliminated_ids ps) o ≡ has_dead_owner ps o
unfolding eliminated_ids is_eliminated owned_by
owned_by_any-eliminated [] o = refl
owned_by_any-eliminated (p ∷ ps) o = elim (Bool-cases (p.health == 0)) [
  | inl dead ↦ rw (dead, owned_by_any-eliminated ps o) refl
  | inr alive ↦ rw (alive, owned_by_any-eliminated ps o) refl
]

filter-not-or :
    (p q : PersistentObject → Bool) (xs : List PersistentObject)
    → filter (λ o. not (q o)) (filter (λ o. not (p o)) xs) ≡ filter (λ o. not (p o || q o)) xs
filter-not-or p q [] = refl
filter-not-or p q (x ∷ xs) = elim (Bool-cases (p x)) [
  | inl in' ↦ rw (in', filter-not-or p q xs) refl
  | inr out ↦ rw (out, filter-not-or p q xs) refl
]

filter-none : (xs : List PersistentObject) → xs ≡ filter (λ o. true) xs
filter-none [] = refl
filter-none (x ∷ xs) = ap (λ ys. x ∷ ys) (filter-none xs)

filter-same :
    (p q : PersistentObject → Bool) (xs : List PersistentObject)
    → ((o : PersistentObject) → p o ≡ q o)
    → filter p xs ≡ filter q xs
filter-same p q [] h = refl
filter-same p q (x ∷ xs) h = rw (h x, filter-same p q xs h) refl

remove_all-filter :
    (ids : List Text) (objects : List PersistentObject) (changes : List PersistentObjectChange)
    → (remove_all ids (objects, changes)).0 ≡ filter (λ o. not (owned_by_any ids o)) objects
unfolding remove_all
remove_all-filter [] objects changes = filter-none objects
remove_all-filter (id ∷ ids) objects changes =
    remove_all-filter ids (filter (λ o. not (owned_by id o)) objects) _
    ∙ filter-not-or (owned_by id) (owned_by_any ids) objects

-- A match that is decided is completed, and one that is not stays in its phase.
abbrev pub IsClosed : MatchOutcome → MatchPhase → MatchPhase → Type 0
IsClosed in_progress before after = after ≡ before
IsClosed draw before after = after ≡ match_complete
IsClosed (victory t) before after = after ≡ match_complete

abbrev completed : Bool → SimulationState → SimulationState
completed b c = if b then c else record c { phase = match_complete }

completed_fields :
    (o : MatchOutcome) (c : SimulationState)
    → ((completed (is_in_progress o) c).players ≡ c.players)
      × ((completed (is_in_progress o) c).objects ≡ c.objects)
      × IsClosed o c.phase (completed (is_in_progress o) c).phase
      × ((completed (is_in_progress o) c).turn_number ≡ c.turn_number)
unfolding is_in_progress
completed_fields in_progress c = (refl, refl, refl, refl)
completed_fields draw c = (refl, refl, refl, refl)
completed_fields (victory t) c = (refl, refl, refl, refl)

-- The check never fails. It reports the outcome by the rule of the game, completes the match exactly on a
-- terminal outcome, leaves the players and the turn alone, and keeps, in their order, exactly the objects
-- that no player without health owns; as many removals are reported as objects go.
pub check_and_finalize_lem :
    (s : SimulationState) (changes : List PersistentObjectChange)
    → (t : SimulationState) × (reported : List PersistentObjectChange) × (o : MatchOutcome)
      × (check_and_finalize s changes ≡ ok (t, reported, o))
      × OutcomeIs s.players o
      × IsClosed o s.phase t.phase
      × (t.players ≡ s.players)
      × (t.turn_number ≡ s.turn_number)
      × (t.objects ≡ filter (λ q. not (has_dead_owner s.players q)) s.objects)
      × (length reported + length t.objects ≡ length changes + length s.objects)
unfolding check_and_finalize
check_and_finalize_lem s changes = (
  completed (is_in_progress (evaluate s)) cleaned,
  (remove_all (eliminated_ids s.players) (s.objects, changes)).1,
  evaluate s,
  refl,
  evaluate-OutcomeIs s,
  fields.2,
  fields.0,
  fields.3,
  fields.1
      ∙ remove_all-filter (eliminated_ids s.players) s.objects changes
      ∙ filter-same _ _ s.objects (λ o. ap not (owned_by_any-eliminated s.players o)),
  rw fields.1 (remove_all_counts (eliminated_ids s.players) s.objects changes),
)
  where
    cleaned : SimulationState
    cleaned = record s { objects = (remove_all (eliminated_ids s.players) (s.objects, changes)).0 }

    fields :
        ((completed (is_in_progress (evaluate s)) cleaned).players ≡ s.players)
        × ((completed (is_in_progress (evaluate s)) cleaned).objects ≡ cleaned.objects)
        × IsClosed (evaluate s) s.phase (completed (is_in_progress (evaluate s)) cleaned).phase
        × ((completed (is_in_progress (evaluate s)) cleaned).turn_number ≡ s.turn_number)
    fields = completed_fields (evaluate s) cleaned

-- What the check leaves of a match, by its own outcome.
pub check_and_finalize_state :
    (s : SimulationState) (changes : List PersistentObjectChange)
    → (t : SimulationState) × (reported : List PersistentObjectChange) × (check_and_finalize s
          changes
        ≡ ok (t, reported, evaluate s))
      × (t.players ≡ s.players)
      × (t.turn_number ≡ s.turn_number)
      × (t.phase ≡ (if is_in_progress (evaluate s) then s.phase else match_complete))
unfolding check_and_finalize
check_and_finalize_state s changes = elim (Bool-cases (is_in_progress (evaluate s))) [
  | inl open' ↦ (_, _, refl, rw open' refl, rw open' refl, rw open' refl)
  | inr over ↦ (_, _, refl, rw over refl, rw over refl, rw over refl)
]
