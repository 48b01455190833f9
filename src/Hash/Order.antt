-- ===== src/Hash/Order.antt =====
-- What the hash of crates/db-sim-core/src/hash.rs must not depend on: the order in which players,
-- objects, blocks and command names are kept, and the looks of the players.
use mathlib.Core.List.{Permᴰ}
use dungeon_barrage.Base.{
  ℕ, ◌≡◌, refl, ap, ◌∙◌, inl, inr, true, false, List, [], ◌∷◌, map, length, length-map, ltb, arith,
  Bool-cases, Text, text_lt, text_lt_irrefl, text_lt_trans, sort_by_perm, sort_by-map, AllApart,
}
use dungeon_barrage.Types.Terrain.{TerrainBlock}
use dungeon_barrage.Types.Player.{PersistentObject, PlayerState, Appearance, ammo_for}
use dungeon_barrage.Types.State.{SimulationState}
use dungeon_barrage.Canonical.{
  CanonicalHasher, write_slice, write_items, write_length, hash_canonical, finish_hex, new,
}
use dungeon_barrage.Hash.{
  sorted_players, sorted_objects, sorted_blocks, sorted_command_ids, write_player, write_metadata,
  write_state, hash_state,
}

text_asym : (s t : Text) → text_lt s t ≡ true → text_lt t s ≡ false
text_asym s t h = elim (Bool-cases (text_lt t s)) [
  | inr f ↦ f
  | inl k ↦ cc (text_lt_trans s t s h k, text_lt_irrefl s)
]

ltb_asym : (m n : ℕ) → ltb m n ≡ true → ltb n m ≡ false
ltb_asym m n h = ground (arith, h)

ltb_trans : (l m n : ℕ) → ltb l m ≡ true → ltb m n ≡ true → ltb l n ≡ true
ltb_trans l m n h k = ground (arith, h, k)

sorted_players_perm :
    {xs ys : List PlayerState}
    → Permᴰ xs ys
    → AllApart (λ p q. text_lt p.id q.id) xs
    → sorted_players xs ≡ sorted_players ys
unfolding sorted_players
sorted_players_perm d h =
    sort_by_perm (λ p q. text_lt p.id q.id) (λ p q. text_asym p.id q.id)
      (λ p q r. text_lt_trans p.id q.id r.id) d h

sorted_objects_perm :
    {xs ys : List PersistentObject}
    → Permᴰ xs ys
    → AllApart (λ a b. ltb a.sequence b.sequence) xs
    → sorted_objects xs ≡ sorted_objects ys
unfolding sorted_objects
sorted_objects_perm d h =
    sort_by_perm (λ a b. ltb a.sequence b.sequence) (λ a b. ltb_asym a.sequence b.sequence)
      (λ a b c. ltb_trans a.sequence b.sequence c.sequence) d h

sorted_blocks_perm :
    {xs ys : List TerrainBlock}
    → Permᴰ xs ys
    → AllApart (λ a b. ltb a.id b.id) xs
    → sorted_blocks xs ≡ sorted_blocks ys
unfolding sorted_blocks
sorted_blocks_perm d h =
    sort_by_perm (λ a b. ltb a.id b.id) (λ a b. ltb_asym a.id b.id)
      (λ a b c. ltb_trans a.id b.id c.id) d h

sorted_commands_perm :
    {xs ys : List Text}
    → Permᴰ xs ys
    → AllApart text_lt xs
    → sorted_command_ids xs ≡ sorted_command_ids ys
unfolding sorted_command_ids
sorted_commands_perm d h = sort_by_perm text_lt text_asym text_lt_trans d h

-- The keys by which the collections of a state are sorted are distinct.
pub record IsKeyed (s : SimulationState) : Type 0 where
  pub players : AllApart (λ p q. text_lt p.id q.id) s.players
  pub objects : AllApart (λ a b. ltb a.sequence b.sequence) s.objects
  pub blocks : AllApart (λ a b. ltb a.id b.id) s.blocks
  pub commands : AllApart text_lt s.processed_command_ids

-- Every player with another look.
unfoldable pub redress : (Appearance → Appearance) → PlayerState → PlayerState
redress look p = record p { appearance = look p.appearance }

write_items-redress :
    (look : Appearance → Appearance) (ps : List PlayerState) (h : CanonicalHasher)
    → write_items write_player (map (redress look) ps) h ≡ write_items write_player ps h
unfolding write_items redress write_player ammo_for
write_items-redress look [] h = refl
write_items-redress look (p ∷ ps) h = write_items-redress look ps (write_player p h)

sorted_players-redress :
    (look : Appearance → Appearance) (ps : List PlayerState)
    → sorted_players (map (redress look) ps) ≡ map (redress look) (sorted_players ps)
unfolding sorted_players redress
sorted_players-redress look ps =
    sort_by-map (λ p q. text_lt p.id q.id) (redress look) (λ p q. refl) ps

write_players-redress :
    (look : Appearance → Appearance) (ps : List PlayerState) (h : CanonicalHasher)
    → write_slice write_player (sorted_players (map (redress look) ps)) h
      ≡ write_slice write_player (sorted_players ps) h
unfolding write_slice
write_players-redress look ps h =
    ap (λ qs. write_items write_player qs (write_length (length qs) h))
      (sorted_players-redress look ps)
    ∙ ap (λ n. write_items write_player (map (redress look) (sorted_players ps)) (write_length n h))
        (length-map (redress look) (sorted_players ps))
    ∙ write_items-redress look (sorted_players ps) (write_length (length (sorted_players ps)) h)

-- The state with its collections in another order, and its players in other looks.
abbrev pub rearranged :
    SimulationState
    → (Appearance → Appearance)
    → List PlayerState
    → List PersistentObject
    → List TerrainBlock
    → List Text
    → SimulationState
rearranged s look ps os bs cs = record s {
  players = map (redress look) ps;
  objects = os;
  blocks = bs;
  processed_command_ids = cs;
}

-- With distinct keys the hash of a state depends neither on the order in which players, objects,
-- blocks and command names are kept nor on the looks of the players.
pub hash_state-rearranged :
    (s : SimulationState) (look : Appearance → Appearance) {ps : List PlayerState}
    {os : List PersistentObject} {bs : List TerrainBlock} {cs : List Text}
    → IsKeyed s
    → Permᴰ s.players ps
    → Permᴰ s.objects os
    → Permᴰ s.blocks bs
    → Permᴰ s.processed_command_ids cs
    → hash_state (rearranged s look ps os bs cs) ≡ hash_state s
unfolding hash_state hash_canonical
hash_state-rearranged s look {ps} {os} {bs} {cs} k p o b c = ap finish_hex same
  where
    same : write_state (rearranged s look ps os bs cs) new ≡ write_state s new
    same =
        unfold write_state write_metadata in
        rw
          (
            write_players-redress look ps,
            ← sorted_players_perm p k.players,
            ← sorted_objects_perm o k.objects,
            ← sorted_blocks_perm b k.blocks,
            ← sorted_commands_perm c k.commands,
          )
          refl
