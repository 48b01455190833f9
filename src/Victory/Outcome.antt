-- ===== src/Victory/Outcome.antt =====
-- `evaluate` of crates/db-sim-core/src/victory.rs against the rule of the game.
use dungeon_barrage.Base.{
  ℕ, ◌<◌, ◌≡◌, refl, ◌⊎◌, inl, inr, true, false, List, [], ◌∷◌, In, All, All-map, arith,
}
use dungeon_barrage.Types.Player.{PlayerState, is_eliminated}
use dungeon_barrage.Types.State.{SimulationState, MatchOutcome, in_progress, victory, draw}
use dungeon_barrage.Victory.{
  insert_team, visit_player, collect_teams, living_teams, outcome_of, evaluate,
}

-- Some player of the team is alive.
abbrev pub Lives : ℕ → List PlayerState → Type 0
Lives t [] = ⊥
Lives t (p ∷ ps) = ((is_eliminated p ≡ false) × (p.team ≡ t)) ⊎ Lives t ps

-- The rule: nobody alive is a draw, one living team wins, two living teams play on.
pub data OutcomeIs (ps : List PlayerState) : MatchOutcome → Type 0 where
  nobody : All (λ p. is_eliminated p ≡ true) ps → OutcomeIs ps draw
  only :
      (t : ℕ)
      → Lives t ps
      → All (λ p. (is_eliminated p ≡ true) ⊎ (p.team ≡ t)) ps
      → OutcomeIs ps (victory t)
  several : (t u : ℕ) → t < u → Lives t ps → Lives u ps → OutcomeIs ps in_progress

-- Strictly ascending from `t` on.
abbrev Above : ℕ → List ℕ → Type 0
Above t [] = Unit
Above t (u ∷ us) = (t < u) × Above u us

abbrev Ascending : List ℕ → Type 0
Ascending [] = Unit
Ascending (t ∷ ts) = Above t ts

Above-insert : (b t : ℕ) (us : List ℕ) → b < t → Above b us → Above b (insert_team t us)
unfolding insert_team
Above-insert b t [] h a = (h, tt)
Above-insert b t (u ∷ us) h a = ground (arith, Above-insert u t us)

Ascending-insert : (t : ℕ) (us : List ℕ) → Ascending us → Ascending (insert_team t us)
unfolding insert_team
Ascending-insert t [] a = tt
Ascending-insert t (u ∷ us) a = ground (arith, Above-insert u t us)

In-insert_self : (t : ℕ) (us : List ℕ) → In t (insert_team t us)
unfolding insert_team
In-insert_self t [] = inl refl
In-insert_self t (u ∷ us) = ground (arith, In-insert_self t us)

In-insert_old : (t v : ℕ) (us : List ℕ) → In v us → In v (insert_team t us)
unfolding insert_team
In-insert_old t v [] h = absurd h
In-insert_old t v (u ∷ us) (inl e) = ground arith
In-insert_old t v (u ∷ us) (inr h) = ground (arith, In-insert_old t v us h)

In-insert : (t v : ℕ) (us : List ℕ) → In v (insert_team t us) → (v ≡ t) ⊎ In v us
unfolding insert_team
In-insert t v [] (inl e) = inl e
In-insert t v [] (inr h) = absurd h
In-insert t v (u ∷ us) h = ground (arith, In-insert t v us)

module _ (acc : List ℕ) (p : PlayerState) where
  visit-Ascending : Ascending acc → Ascending (visit_player acc p)
  unfolding visit_player
  visit-Ascending a = ground (arith, Ascending-insert p.team acc)

  visit_old : (v : ℕ) → In v acc → In v (visit_player acc p)
  unfolding visit_player
  visit_old v h = ground (arith, In-insert_old p.team v acc h)

  visit_new : (is_eliminated p ≡ true) ⊎ In p.team (visit_player acc p)
  unfolding visit_player
  visit_new = ground (arith, In-insert_self p.team acc)

  visit_from :
      (v : ℕ) → In v (visit_player acc p) → In v acc ⊎ ((is_eliminated p ≡ false) × (p.team ≡ v))
  unfolding visit_player
  visit_from v h = ground (arith, In-insert p.team v acc)

collect-Ascending :
    (acc : List ℕ) (ps : List PlayerState) → Ascending acc → Ascending (collect_teams acc ps)
unfolding collect_teams
collect-Ascending acc [] a = a
collect-Ascending acc (p ∷ ps) a =
    collect-Ascending (visit_player acc p) ps (visit-Ascending acc p a)

collect_old :
    (v : ℕ) (acc : List ℕ) (ps : List PlayerState) → In v acc → In v (collect_teams acc ps)
unfolding collect_teams
collect_old v acc [] h = h
collect_old v acc (p ∷ ps) h = collect_old v (visit_player acc p) ps (visit_old acc p v h)

collect_new :
    (acc : List ℕ) (ps : List PlayerState)
    → All (λ p. (is_eliminated p ≡ true) ⊎ In p.team (collect_teams acc ps)) ps
unfolding collect_teams
collect_new acc [] = tt
collect_new acc (p ∷ ps) = (
  elim (visit_new acc p) [
    | inl dead ↦ inl dead
    | inr here ↦ inr (collect_old p.team (visit_player acc p) ps here)
  ],
  collect_new (visit_player acc p) ps,
)

collect_from :
    (v : ℕ) (acc : List ℕ) (ps : List PlayerState)
    → In v (collect_teams acc ps)
    → In v acc ⊎ Lives v ps
unfolding collect_teams
collect_from v acc [] h = inl h
collect_from v acc (p ∷ ps) h = elim (collect_from v (visit_player acc p) ps h) [
  | inr later ↦ inr (inr later)
  | inl seen ↦ elim (visit_from acc p v seen) [ inl old ↦ inl old | inr here ↦ inr (inl here) ]
]

Lives-of_In : (v : ℕ) (ps : List PlayerState) → In v (collect_teams [] ps) → Lives v ps
Lives-of_In v ps h = elim (collect_from v [] ps h) [ inl old ↦ absurd old | inr lives ↦ lives ]

outcome_of-OutcomeIs :
    (ps : List PlayerState) (ts : List ℕ)
    → Ascending ts
    → ((v : ℕ) → In v ts → Lives v ps)
    → All (λ p. (is_eliminated p ≡ true) ⊎ In p.team ts) ps
    → OutcomeIs ps (outcome_of ts)
unfolding outcome_of
outcome_of-OutcomeIs ps [] a lives all =
    nobody (All-map ps (λ p h. elim h [ inl dead ↦ dead | inr none ↦ absurd none ]) all)
outcome_of-OutcomeIs ps (t ∷ []) a lives all = only t (lives t (inl refl)) (
    All-map ps
      (λ p h. elim h [ inl dead ↦ inl dead | inr (inl e) ↦ inr e | inr (inr none) ↦ absurd none ])
      all)
outcome_of-OutcomeIs ps (t ∷ u ∷ us) a lives all =
    several t u a.0 (lives t (inl refl)) (lives u (inr (inl refl)))

-- The reported outcome is the one that the rule gives: a draw when everybody is eliminated, victory
-- of a team when it alone has living members, and otherwise two living teams to play on.
pub evaluate-OutcomeIs : (s : SimulationState) → OutcomeIs s.players (evaluate s)
unfolding evaluate living_teams
evaluate-OutcomeIs s =
    outcome_of-OutcomeIs s.players (collect_teams [] s.players) (collect-Ascending [] s.players tt)
      (λ v h. Lives-of_In v s.players h) (collect_new [] s.players)
