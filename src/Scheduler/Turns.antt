-- ===== src/Scheduler/Turns.antt =====
-- The end of a turn in crates/db-sim-core/src/scheduler.rs: the turn passes on while somebody lives.
use dungeon_barrage.Base.{
  ℕ, ◌+◌, ◌-◌, ◌^◌, ◌<◌, ◌≡◌, refl, sym, subst, inl, inr, true, false, List, [], ◌∷◌, some, min,
  arith, length, In, Bool-cases, Text, text_eq, text_eq_self, find,
}
use dungeon_barrage.Error.{ok}
use dungeon_barrage.Types.Player.{PlayerState, is_eliminated}
use dungeon_barrage.Types.State.{SimulationState, TurnEndReason}
use dungeon_barrage.Roster.{for_player}
use dungeon_barrage.Victory.Outcome.{Lives}
use dungeon_barrage.Scheduler.{
  living_ids, sort_texts, next_active_player, movement_allowance_for, allowance_of, end_turn,
}
use dungeon_barrage.Scheduler.Sort.{In-of_sort}
use dungeon_barrage.Scheduler.Rotation.{length-sort, choose_total}

-- A living team puts a name among the living.
pub living_of_Lives : (t : ℕ) (ps : List PlayerState) → Lives t ps → 0 < length (living_ids ps)
unfolding living_ids
living_of_Lives t [] h = absurd h
living_of_Lives t (p ∷ ps) (inl h) = rw h.0 (omega arith)
living_of_Lives t (p ∷ ps) (inr h) = elim (Bool-cases (is_eliminated p)) [
  | inl dead ↦ rw dead (living_of_Lives t ps h)
  | inr alive ↦ rw alive (omega arith)
]

pub absurd_text : {A : Type 0} (s t : Text) → text_eq s t ≡ false → t ≡ s → A
absurd_text s t h e = cc (h, subst (λ u. text_eq s u ≡ true) (sym e) (text_eq_self s))

-- A name among the living is a player's.
pub player_of_living :
    (id : Text) (ps : List PlayerState)
    → In id (living_ids ps)
    → (p : PlayerState) × (find (λ q. text_eq q.id id) ps ≡ some p)
unfolding living_ids
player_of_living id [] h = absurd h
player_of_living id (p ∷ ps) h = elim (Bool-cases (text_eq p.id id)) [
  | inl same ↦ (p, rw same)
  | inr other ↦ elim (Bool-cases (is_eliminated p)) [
    | inl dead ↦ rw other (player_of_living id ps (rw dead at h))
    | inr alive ↦ rw other (elim (rw alive at h) [
      | inl e ↦ absurd_text p.id id other e
      | inr later ↦ player_of_living id ps later
    ])
  ]
]

-- While somebody lives there is a next active player, who is a player of the match.
next_active_player_total :
    (s : SimulationState)
    → 0 < length (living_ids s.players)
    → (id : Text) × (next_active_player s ≡ some id) × In id (living_ids s.players)
unfolding next_active_player
next_active_player_total s h =
    let (id, e, m) =
      choose_total s.active_player_id (sort_texts (living_ids s.players))
        (omega (arith, h, length-sort (living_ids s.players))) in
    (id, e, In-of_sort id (living_ids s.players) m)

pub end_turn_total :
    (s : SimulationState) (reason : TurnEndReason)
    → 0 < length (living_ids s.players)
    → (t : SimulationState) × (end_turn s reason ≡ ok t)
      × (t.turn_number ≡ min (s.turn_number + 1) (2 ^ 32 - 1))
      × (t.players ≡ s.players)
      × In t.active_player_id (living_ids s.players)
      × (t.last_turn_end_reason ≡ reason)
unfolding end_turn
end_turn_total s reason h =
    let ended : SimulationState = record s { last_turn_end_reason = reason } in
    let (id, e, m) = next_active_player_total ended h in
    let (p, f) = player_of_living id s.players m in
    (
      record ended {
        active_player_id = id;
        movement_remaining = allowance_of (for_player p);
        has_attacked_this_turn = false;
        turn_number = min (s.turn_number + 1) (2 ^ 32 - 1);
      },
      rw (e, end_turn) (rw (f, movement_allowance_for)),
      refl,
      refl,
      m,
      refl,
    )
