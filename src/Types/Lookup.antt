-- ===== src/Types/Lookup.antt =====
-- Reads of the players after a write to one of them, in crates/db-sim-core/src/types.rs.
use dungeon_barrage.Base.{
  ◌≡◌, ◌∙◌, refl, ap, inl, inr, true, false, List, [], ◌∷◌, All, some, arith, Bool-cases, find,
  subst, Text, text_eq, text_eq→eq,
}
use dungeon_barrage.Types.Player.{PlayerState}
use dungeon_barrage.Types.State.{SimulationState, player, update_first, update_player}

module _ (id : Text) (f : PlayerState → PlayerState)
    (named : (p : PlayerState) → (f p).id ≡ p.id) where
  find-update_first_self :
      (ps : List PlayerState) (p : PlayerState)
      → find (λ q. text_eq q.id id) ps ≡ some p
      → find (λ q. text_eq q.id id) (update_first id f ps) ≡ some (f p)
  unfolding update_first
  find-update_first_self [] p h = cc
  find-update_first_self (q ∷ ps) p h = elim (Bool-cases (text_eq q.id id)) [
    | inl same ↦
        let e : q ≡ p = ground (arith, same) in
        let found : text_eq (f q).id id ≡ true = ap (λ i. text_eq i id) (named q) ∙ same in
        rw (same, found) (ap (λ r. some (f r)) e)
    | inr other ↦ rw (other, other) (find-update_first_self ps p (ground (arith, other)))
  ]

  find-update_first_other :
      (other_id : Text) (ps : List PlayerState)
      → text_eq id other_id ≡ false
      → find (λ q. text_eq q.id other_id) (update_first id f ps)
        ≡ find (λ q. text_eq q.id other_id) ps
  unfolding update_first
  find-update_first_other other_id [] h = refl
  find-update_first_other other_id (q ∷ ps) h = elim (Bool-cases (text_eq q.id id)) [
    | inl same ↦
        let e : text_eq q.id other_id ≡ false =
          ap (λ i. text_eq i other_id) (text_eq→eq q.id id same) ∙ h in
        let unfound : text_eq (f q).id other_id ≡ false =
          ap (λ i. text_eq i other_id) (named q) ∙ e in
        rw (same, unfound, e) refl
    | inr different ↦ rw (different, find-update_first_other other_id ps h) refl
  ]

  -- The written player is found with the write, and every other as before.
  pub player-update_player :
      (s : SimulationState) (p : PlayerState)
      → player s id ≡ some p
      → player (update_player s id f) id ≡ some (f p)
  unfolding player update_player
  player-update_player s p h = find-update_first_self s.players p h

  pub player-update_player_other :
      (s : SimulationState) (other_id : Text)
      → text_eq id other_id ≡ false
      → player (update_player s id f) other_id ≡ player s other_id
  unfolding player update_player
  player-update_player_other s other_id h = find-update_first_other other_id s.players h

pub player-All {κ} :
    (P : PlayerState → Type κ) (s : SimulationState) (id : Text) (p : PlayerState)
    → player s id ≡ some p
    → All P s.players
    → P p
unfolding player
player-All P s id p h k = found s.players h k
  where
    found : (ps : List PlayerState) → find (λ q. text_eq q.id id) ps ≡ some p → All P ps → P p
    found [] h k = cc
    found (q ∷ ps) h k = elim (Bool-cases (text_eq q.id id)) [
      | inl same ↦ let e : q ≡ p = ground (arith, same) in subst P e k.0
      | inr other ↦ found ps (ground (arith, other)) k.1
    ]

-- A write that keeps a predicate of the player it finds keeps it of all.
pub All-update_player {κ} :
    (P : PlayerState → Type κ) (s : SimulationState) (id : Text) (f : PlayerState → PlayerState)
    (p : PlayerState)
    → player s id ≡ some p
    → P (f p)
    → All P s.players
    → All P (update_player s id f).players
unfolding player update_player update_first
All-update_player P s id f p found h k = go s.players found k
  where
    go :
        (ps : List PlayerState)
        → find (λ q. text_eq q.id id) ps ≡ some p
        → All P ps
        → All P (update_first id f ps)
    go [] found k = tt
    go (q ∷ ps) found k = elim (Bool-cases (text_eq q.id id)) [
      | inl same ↦ let e : p ≡ q = ground (arith, same) in rw same (subst (λ r. P (f r)) e h, k.1)
      | inr other ↦ rw other (k.0, go ps (ground (arith, other)) k.1)
    ]
