-- ===== src/Scheduler/Limit.antt =====
-- The turn limit in crates/db-sim-core/src/scheduler.rs: a match still undecided at the limit is
-- ended as a draw.
use dungeon_barrage.Base.{
  ℕ, ◌<◌, ◌≡◌, refl, sym, ap, subst, ◌∙◌, ◌⊎◌, inl, inr, true, false, List, [], ◌∷◌, ◌++◌, map,
  filter, some, leb, arith, length, In, All, All-map, Bool-cases, Text, text_eq, text_eq→eq, find,
}
use dungeon_barrage.Error.{ok}
use dungeon_barrage.Types.Player.{PlayerState, is_eliminated, PersistentObjectChange}
use dungeon_barrage.Types.State.{
  SimulationState, MatchOutcome, match_complete, player, update_first,
}
use dungeon_barrage.Victory.{is_in_progress, owned_by, removal, evaluate, check_and_finalize}
use dungeon_barrage.Victory.Outcome.{Lives, OutcomeIs, nobody, only, several, evaluate-OutcomeIs}
use dungeon_barrage.Victory.Cleanup.{
  check_and_finalize_state, without, zero_health, names-update_first, eliminate-without,
}
use dungeon_barrage.Scheduler.{living_ids, eliminate_all, force_draw, finalize, hard_turn_limit}
use dungeon_barrage.Scheduler.Sort.{Distinct}
use dungeon_barrage.Scheduler.Turns.{living_of_Lives, absurd_text}

abbrev pub names : SimulationState → List Text
names s = map (λ p. p.id) s.players

-- Everybody is eliminated, or on the list.
abbrev Listed : List Text → List PlayerState → Type 0
Listed ids = All (λ p. (is_eliminated p ≡ true) ⊎ In p.id ids)

found :
    (id : Text) (ps : List PlayerState)
    → In id (map (λ p. p.id) ps)
    → (p : PlayerState) × (find (λ q. text_eq q.id id) ps ≡ some p)
found id [] h = absurd h
found id (p ∷ ps) h = elim (Bool-cases (text_eq p.id id)) [
  | inl same ↦ (p, rw same)
  | inr other ↦
      rw other (elim h [ inl e ↦ absurd_text p.id id other e | inr later ↦ found id ps later ])
]

Listed-rest :
    (id : Text) (ids : List Text) (ps : List PlayerState)
    → All (λ t. text_eq id t ≡ false) (map (λ p. p.id) ps)
    → Listed (id ∷ ids) ps
    → Listed ids ps
Listed-rest id ids [] d h = tt
Listed-rest id ids (p ∷ ps) d h = (
  elim h.0 [ inl dead ↦ inl dead | inr (inl e) ↦ absurd_text id p.id d.0 e | inr (inr m) ↦ inr m ],
  Listed-rest id ids ps d.1 h.1,
)

Listed-update :
    (id : Text) (ids : List Text) (ps : List PlayerState)
    → Distinct (map (λ p. p.id) ps)
    → Listed (id ∷ ids) ps
    → Listed ids (update_first id zero_health ps)
unfolding update_first is_eliminated
Listed-update id ids [] d h = tt
Listed-update id ids (p ∷ ps) d h = elim (Bool-cases (text_eq p.id id)) [
  | inl same ↦
      let e = text_eq→eq p.id id same in
      rw same (
        inl refl,
        Listed-rest id ids ps
            (subst (λ i. All (λ t. text_eq i t ≡ false) (map (λ q. q.id) ps)) e d.0) h.1,
      )
  | inr other ↦ rw other (
    elim h.0 [
      | inl dead ↦ inl dead
      | inr (inl e) ↦ absurd_text p.id id other (sym e)
      | inr (inr m) ↦ inr m
    ],
    Listed-update id ids ps d.1 h.1,
  )
]

-- Eliminating everybody on the list, if all the others are eliminated already.
eliminate_all_lem :
    (ids : List Text) (s : SimulationState) (changes : List PersistentObjectChange)
    → Distinct (names s)
    → All (λ id. In id (names s)) ids
    → Listed ids s.players
    → (t : SimulationState) × (reported : List PersistentObjectChange) × (eliminate_all ids s
          changes
        ≡ ok (t, reported))
      × Listed [] t.players
      × (names t ≡ names s)
      × (t.turn_number ≡ s.turn_number)
unfolding eliminate_all
eliminate_all_lem [] s changes d m l = (s, changes, refl, l, refl, refl)
eliminate_all_lem (id ∷ ids) s changes d m l =
    let (p, f) = found id s.players m.0 in
    let same : names (without s id) ≡ names s =
      names-update_first id zero_health s.players (λ p. refl) in
    let (t, reported, e, l', n, k) =
      eliminate_all_lem ids (without s id) (changes ++ map removal (filter (owned_by id) s.objects))
        (subst Distinct (sym same) d) (subst (λ ns. All (λ i. In i ns) ids) (sym same) m.1)
        (Listed-update id ids s.players d l) in
    (
      t,
      reported,
      rw (eliminate-without s id p changes (unfold player in f), eliminate_all) e,
      l',
      n ∙ same,
      k,
    )

living_ids-dead :
    (p : PlayerState) (ps : List PlayerState)
    → is_eliminated p ≡ true
    → living_ids (p ∷ ps) ≡ living_ids ps
unfolding living_ids
living_ids-dead p ps h = rw h

living_ids-alive :
    (p : PlayerState) (ps : List PlayerState)
    → is_eliminated p ≡ false
    → living_ids (p ∷ ps) ≡ p.id ∷ living_ids ps
unfolding living_ids
living_ids-alive p ps h = rw h

-- Everybody alive is on the list of the living.
Listed-living : (ps : List PlayerState) → Listed (living_ids ps) ps
Listed-living [] = tt
Listed-living (p ∷ ps) = elim (Bool-cases (is_eliminated p)) [
  | inl dead ↦
      subst (λ ids. Listed ids (p ∷ ps)) (sym (living_ids-dead p ps dead))
        (inl dead, Listed-living ps)
  | inr alive ↦
      subst (λ ids. Listed ids (p ∷ ps)) (sym (living_ids-alive p ps alive))
        (
          inr (inl refl),
          All-map ps (λ q h. elim h [ inl d ↦ inl d | inr m ↦ inr (inr m) ]) (Listed-living ps),
        )
]

living_named : (ps : List PlayerState) → All (λ id. In id (map (λ p. p.id) ps)) (living_ids ps)
unfolding living_ids
living_named [] = tt
living_named (p ∷ ps) = elim (Bool-cases (is_eliminated p)) [
  | inl dead ↦ rw dead (All-map (living_ids ps) (λ id m. inr m) (living_named ps))
  | inr alive ↦ rw alive (inl refl, All-map (living_ids ps) (λ id m. inr m) (living_named ps))
]

-- With nobody alive the outcome is no longer open; with an open one somebody lives.
nobody_open : (ps : List PlayerState) (t : ℕ) → Listed [] ps → Lives t ps → ⊥
nobody_open [] t h l = l
nobody_open (p ∷ ps) t h (inl l) = elim h.0 [ inl dead ↦ cc (dead, l.0) | inr m ↦ m ]
nobody_open (p ∷ ps) t h (inr l) = nobody_open ps t h.1 l

settled :
    (ps : List PlayerState) (o : MatchOutcome)
    → Listed [] ps
    → OutcomeIs ps o
    → is_in_progress o ≡ false
unfolding is_in_progress
settled ps _ h (nobody a) = refl
settled ps _ h (only t l a) = refl
settled ps _ h (several t u lt l k) = absurd (nobody_open ps t h l)

open_lives :
    (ps : List PlayerState) (o : MatchOutcome)
    → OutcomeIs ps o
    → is_in_progress o ≡ true
    → 0 < length (living_ids ps)
unfolding is_in_progress
open_lives ps _ (nobody a) h = cc
open_lives ps _ (only t l a) h = cc
open_lives ps _ (several t u lt l k) h = living_of_Lives t ps l

-- How the victory check leaves a match: open, below the turn limit and with a living player, or
-- complete.
pub record Checked (s t : SimulationState) (o : MatchOutcome) : Type 0 where
  pub turn : t.turn_number ≡ s.turn_number
  pub same_names : names t ≡ names s
  pub decided :
      ((is_in_progress o ≡ true)
        × (s.turn_number < hard_turn_limit)
        × (0 < length (living_ids t.players)))
      ⊎ ((is_in_progress o ≡ false) × (t.phase ≡ match_complete))

module _ (s : SimulationState) (changes : List PersistentObjectChange) (t : SimulationState)
    (reported : List PersistentObjectChange)
    (checked : check_and_finalize s changes ≡ ok (t, reported, evaluate s)) where
  finalize-over :
      is_in_progress (evaluate s) ≡ false → finalize s changes ≡ ok (t, reported, evaluate s)
  unfolding finalize
  finalize-over h = rw checked (rw h)

  finalize-below :
      leb hard_turn_limit t.turn_number ≡ false → finalize s changes ≡ ok (t, reported, evaluate s)
  unfolding finalize
  finalize-below h = elim (Bool-cases (is_in_progress (evaluate s))) [
    | inl k ↦ rw checked (rw (k, h))
    | inr k ↦ rw checked (rw k)
  ]

  finalize-limit :
      (u : SimulationState) (c : List PersistentObjectChange)
      → is_in_progress (evaluate s) ≡ true
      → leb hard_turn_limit t.turn_number ≡ true
      → eliminate_all (living_ids t.players) t reported ≡ ok (u, c)
      → finalize s changes ≡ check_and_finalize u c
  unfolding finalize force_draw
  finalize-limit u c h k e = rw checked (rw (h, k) (rw e refl))

-- With distinct names the victory check never fails, and at the turn limit it never leaves a match
-- open.
pub finalize-Checked :
    (s : SimulationState) (changes : List PersistentObjectChange)
    → Distinct (names s)
    → (t : SimulationState) × (reported : List PersistentObjectChange) × (o : MatchOutcome)
      × (finalize s changes ≡ ok (t, reported, o))
      × Checked s t o
finalize-Checked s changes d =
    let (t, c, e, ps, turn, phase) = check_and_finalize_state s changes in
    elim (Bool-cases (is_in_progress (evaluate s))) [
      | inr over ↦ (
        t,
        c,
        evaluate s,
        finalize-over s changes t c e over,
        record {
          turn = turn;
          same_names = ap (map (λ p. p.id)) ps;
          decided = inr (over, phase ∙ rw over refl);
        },
      )
      | inl open' ↦ elim (Bool-cases (leb hard_turn_limit t.turn_number)) [
        | inr below ↦ (
          t,
          c,
          evaluate s,
          finalize-below s changes t c e below,
          record {
            turn = turn;
            same_names = ap (map (λ p. p.id)) ps;
            decided = inl (
              open',
              ground (arith, turn, below),
              subst (λ qs. 0 < length (living_ids qs)) (sym ps)
                  (open_lives s.players (evaluate s) (evaluate-OutcomeIs s) open'),
            );
          },
        )
        | inl limit ↦
            let d' = subst Distinct (sym (ap (map (λ p. p.id)) ps)) d in
            let (u, c2, e2, all, n, k) =
              eliminate_all_lem (living_ids t.players) t c d' (living_named t.players)
                (Listed-living t.players) in
            let (v, c3, e3, ps3, turn3, phase3) = check_and_finalize_state u c2 in
            let over = settled u.players (evaluate u) all (evaluate-OutcomeIs u) in
            (
              v,
              c3,
              evaluate u,
              finalize-limit s changes t c e u c2 open' limit e2 ∙ e3,
              record {
                turn = turn3 ∙ k ∙ turn;
                same_names = ap (map (λ p. p.id)) ps3 ∙ n ∙ ap (map (λ p. p.id)) ps;
                decided = inr (over, phase3 ∙ rw over refl);
              },
            )
      ]
    ]
