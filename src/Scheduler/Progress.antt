-- ===== src/Scheduler/Progress.antt =====
-- A match ends: every call of `advance_phase` in crates/db-sim-core/src/scheduler.rs leads on, and
-- the turn limit bounds their number.
use dungeon_barrage.Base.{
  ℕ, zero, suc, ◌+◌, ◌-◌, ◌*◌, ◌<◌, ◌≤◌, ◌≡◌, ◌≢◌, refl, sym, ap, subst, ◌∙◌, ◌⊎◌, inl, inr, List,
  map, [], arith, Option-cases, Text,
}
use dungeon_barrage.Error.{SimResult, ok, ◌>>=◌}
use dungeon_barrage.Types.Player.{PersistentObjectChange, StatusChange}
use dungeon_barrage.Types.State.{
  SimulationState, MatchPhase, match_intro, turn_start, movement, aiming_and_selection,
  passive_selection, command_locked, resolution, settling, status_resolution, victory_check,
  match_complete, player,
}
use dungeon_barrage.Status.{tick_statuses}
use dungeon_barrage.Victory.Cleanup.{names-update_first}
use dungeon_barrage.Scheduler.{
  leave_victory_check, Advance, advance_from, advance_phase, hard_turn_limit,
}
use dungeon_barrage.Scheduler.Sort.{Distinct}
use dungeon_barrage.Scheduler.Turns.{end_turn_total}
use dungeon_barrage.Scheduler.Limit.{names, finalize-Checked}

-- The phases left in a turn.
abbrev phase_rank : MatchPhase → ℕ
phase_rank match_intro = 9
phase_rank turn_start = 8
phase_rank movement = 7
phase_rank aiming_and_selection = 6
phase_rank command_locked = 5
phase_rank resolution = 4
phase_rank passive_selection = 4
phase_rank settling = 3
phase_rank status_resolution = 2
phase_rank victory_check = 1
phase_rank match_complete = 0

abbrev rank_at : MatchPhase → ℕ → ℕ
rank_at match_complete turn = 0
rank_at phase turn = (hard_turn_limit - turn) * 10 + phase_rank phase

-- A bound on the calls until the match is complete.
unfoldable pub rank : SimulationState → ℕ
rank s = rank_at s.phase s.turn_number

-- A call that succeeds and leads on, with the names kept.
abbrev pub LeadsOn : SimulationState → SimResult Advance → Type 0
LeadsOn s r = (a : Advance) × (r ≡ ok a) × (rank a.state < rank s) × (names a.state ≡ names s)

tick_statuses-kept :
    (s : SimulationState) (id : Text)
    → let t = (tick_statuses s id).0 in (names t ≡ names s) × (t.turn_number ≡ s.turn_number)
unfolding tick_statuses
tick_statuses-kept s id = elim (Option-cases (player s id)) [
  | inl e ↦ rw (e, tick_statuses) (refl, refl)
  | inr (p, e) ↦ rw (e, tick_statuses) (names-update_first id _ s.players (λ q. refl), refl)
]

module _ (s : SimulationState) (changes : List PersistentObjectChange)
    (d : Distinct (names s)) where
  -- The victory check starts a new turn below the limit, or the match is complete.
  leave_victory_check_lem :
      (t : SimulationState) × (reported : List PersistentObjectChange) × (leave_victory_check s
          changes
        ≡ ok (t, reported))
      × (names t ≡ names s)
      × ((t.phase ≡ match_complete)
          ⊎ ((t.phase ≡ turn_start)
              × (t.turn_number ≡ suc s.turn_number)
              × (s.turn_number < hard_turn_limit)))
  unfolding leave_victory_check
  leave_victory_check_lem =
      let (t, c, o, e, v) = finalize-Checked s changes d in
      elim v.decided [
        | inr (over, complete) ↦ (
          record t { last_turn_end_reason = t.pending_turn_end_reason },
          c,
          rw e (rw over),
          v.same_names,
          inl complete,
        )
        | inl (open', below, lives) ↦
            let (u, f, turn, ps, _, _) = end_turn_total t t.pending_turn_end_reason lives in
            (
              record u { phase = turn_start },
              c,
              rw e (rw open' (rw f)),
              ap (map (λ p. p.id)) ps ∙ v.same_names,
              inr (refl, omega (arith, turn, v.turn), below),
            )
      ]

  rank_of : (ph : MatchPhase) → s.phase ≡ ph → rank s ≡ rank_at ph s.turn_number
  unfolding rank
  rank_of ph e = ap (λ q. rank_at q s.turn_number) e

  checked-LeadsOn :
      (st : List StatusChange)
      → s.phase ≡ victory_check
      → LeadsOn s (advance_from victory_check s st changes)
  unfolding advance_from rank
  checked-LeadsOn st h =
      let (t, c, e, n, next) = leave_victory_check_lem in
      (
        record { state = t; status_changes = st; object_changes = c },
        rw e,
        elim next [
          | inl complete ↦
              omega (arith, rank_of victory_check h, ap (λ q. rank_at q t.turn_number) complete)
          | inr (start, turn, below) ↦
              omega (
                arith,
                rank_of victory_check h,
                ap (λ q. rank_at q t.turn_number) start,
                turn,
                below,
              )
        ],
        n,
      )

  advance_from-LeadsOn :
      (ph : MatchPhase) (st : List StatusChange)
      → s.phase ≡ ph
      → ph ≢ match_complete
      → LeadsOn s (advance_from ph s st changes)
  unfolding advance_from rank
  advance_from-LeadsOn match_intro st h n = (_, refl, omega (arith, rank_of match_intro h), refl)
  advance_from-LeadsOn turn_start st h n = (_, refl, omega (arith, rank_of turn_start h), refl)
  advance_from-LeadsOn movement st h n = (_, refl, omega (arith, rank_of movement h), refl)
  advance_from-LeadsOn aiming_and_selection st h n =
      (_, refl, omega (arith, rank_of aiming_and_selection h), refl)
  advance_from-LeadsOn passive_selection st h n =
      (_, refl, omega (arith, rank_of passive_selection h), refl)
  advance_from-LeadsOn command_locked st h n =
      (_, refl, omega (arith, rank_of command_locked h), refl)
  advance_from-LeadsOn resolution st h n = (_, refl, omega (arith, rank_of resolution h), refl)
  advance_from-LeadsOn settling st h n = (_, refl, omega (arith, rank_of settling h), refl)
  advance_from-LeadsOn status_resolution st h n =
      let (ns, turn) = tick_statuses-kept s s.active_player_id in
      (_, refl, omega (arith, rank_of status_resolution h, turn), ns)
  advance_from-LeadsOn victory_check st h n = checked-LeadsOn st h
  advance_from-LeadsOn match_complete st h n = absurd (n refl)

-- While a match is not complete, and its players have distinct names, each call of `advance_phase`
-- succeeds, lowers the rank and keeps the names.
pub advance_phase-LeadsOn :
    (s : SimulationState) (st : List StatusChange) (ob : List PersistentObjectChange)
    → Distinct (names s)
    → s.phase ≢ match_complete
    → LeadsOn s (advance_phase s st ob)
unfolding advance_phase
advance_phase-LeadsOn s st ob d h = advance_from-LeadsOn s ob d s.phase st refl h

-- At most 2009 calls are ever needed.
pub rank-lt : (s : SimulationState) → rank s < 2010
unfolding rank
rank-lt s = bound s.phase s.turn_number
  where
    bound : (ph : MatchPhase) (turn : ℕ) → rank_at ph turn < 2010
    bound match_complete turn = omega arith
    bound _ turn = omega arith

-- A driver that calls `advance_phase` a number of times.
pub run_phases : ℕ → SimulationState → SimResult SimulationState
run_phases zero s = ok s
run_phases (suc n) s = do a ← advance_phase s [] []; run_phases n a.state

complete-cases : (ph : MatchPhase) → (ph ≡ match_complete) ⊎ (ph ≢ match_complete)
complete-cases match_complete = inl refl
complete-cases _ = inr (λ e. cc)

complete_of_rank : (s : SimulationState) → rank s ≡ 0 → s.phase ≡ match_complete
unfolding rank
complete_of_rank s h = elim (complete-cases s.phase) [
  | inl e ↦ e
  | inr n ↦ absurd (positive s.phase s.turn_number n h)
]
  where
    positive : (ph : MatchPhase) (turn : ℕ) → ph ≢ match_complete → rank_at ph turn ≢ 0
    positive match_complete turn n e = n refl
    positive _ turn n e = omega arith

complete_stays :
    (n : ℕ) (s : SimulationState)
    → s.phase ≡ match_complete
    → (t : SimulationState) × (run_phases n s ≡ ok t) × (t.phase ≡ match_complete)
unfolding run_phases advance_phase advance_from
complete_stays zero s h = (s, refl, h)
complete_stays (suc n) s h =
    let (t, e, c) = complete_stays n (record s { phase = match_complete }) refl in (t, rw h e, c)

-- A match whose players have distinct names ends: from any state, after as many calls of
-- `advance_phase` as its rank or more, every call has succeeded and the match is complete.
pub match_ends :
    (n : ℕ) (s : SimulationState)
    → Distinct (names s)
    → rank s ≤ n
    → (t : SimulationState) × (run_phases n s ≡ ok t) × (t.phase ≡ match_complete)
unfolding run_phases
match_ends zero s d h = (s, refl, complete_of_rank s (omega arith))
match_ends (suc n) s d h = elim (complete-cases s.phase) [
  | inl e ↦ complete_stays (suc n) s e
  | inr ne ↦
      let (a, e, falls, same) = advance_phase-LeadsOn s [] [] d ne in
      let (t, f, c) = match_ends n a.state (subst Distinct (sym same) d) (omega arith) in
      (t, rw e f, c)
]
