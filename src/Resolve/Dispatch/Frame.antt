-- ===== src/Resolve/Dispatch/Frame.antt =====
-- What no effect of crates/db-sim-core/src/resolve/ touches: the turn, the phase, the active player, the
-- allowance, the ledger of commands and the rest of the match's own fields.
use dungeon_barrage.Base.{
  ℕ, ◌≡◌, ◌∙◌, refl, Bool, true, false, List, Option, none, some, arith, ℤ, Text, if◌then◌else◌,
}
use dungeon_barrage.Error.{SimError, SimResult, ok, err, ok_or, ◌>>=◌}
use dungeon_barrage.Types.Player.{PlayerState}
use dungeon_barrage.Types.Terrain.{TerrainShape}
use dungeon_barrage.Types.State.{SimulationState, MatchPhase, TurnEndReason, update_player}
use dungeon_barrage.BlockOps.Operation.{apply_operation, settle_unsupported_blocks}
use dungeon_barrage.Types.Terrain.{TerrainOperation}
use dungeon_barrage.Resolve.{ResolveContext, damage_entry, next_terrain_sequence}
use dungeon_barrage.Resolve.Support.{apply_heal, apply_backlash}
use dungeon_barrage.Resolve.AttackMods.Hits.{deal_damage}
use dungeon_barrage.Resolve.AttackMods.Carving.{carve}

pub record Frame : Type 0 where
  pub tick : ℕ
  pub turn_number : ℕ
  pub phase : MatchPhase
  pub active_player_id : Text
  pub wind_per_tick : ℤ
  pub movement_remaining : ℤ
  pub has_attacked_this_turn : Bool
  pub processed_command_ids : List Text
  pub rng_state : ℕ
  pub pending_turn_end_reason : TurnEndReason
  pub last_turn_end_reason : TurnEndReason

unfoldable pub frame : SimulationState → Frame
frame s = record {
  tick = s.tick;
  turn_number = s.turn_number;
  phase = s.phase;
  active_player_id = s.active_player_id;
  wind_per_tick = s.wind_per_tick;
  movement_remaining = s.movement_remaining;
  has_attacked_this_turn = s.has_attacked_this_turn;
  processed_command_ids = s.processed_command_ids;
  rng_state = s.rng_state;
  pending_turn_end_reason = s.pending_turn_end_reason;
  last_turn_end_reason = s.last_turn_end_reason;
}

abbrev pub SameFrame : ResolveContext → ResolveContext → Type 0
SameFrame ctx next = frame next.state ≡ frame ctx.state

-- An effect fails, or keeps the frame.
abbrev pub KeepsFrame : ResolveContext → SimResult ResolveContext → Type 0
KeepsFrame ctx (ok next) = SameFrame ctx next
KeepsFrame ctx (err e) = Unit

pub frame-update_player :
    (s : SimulationState) (id : Text) (f : PlayerState → PlayerState)
    → frame (update_player s id f) ≡ frame s
unfolding frame update_player
frame-update_player s id f = refl

pub frame-apply_operation :
    (s : SimulationState) (op : TerrainOperation) → frame (apply_operation s op).0 ≡ frame s
unfolding frame apply_operation settle_unsupported_blocks
frame-apply_operation s op = refl

pub frame-carve : (ctx : ResolveContext) (shape : TerrainShape) → SameFrame ctx (carve ctx shape)
unfolding frame carve next_terrain_sequence
frame-carve ctx shape = frame-apply_operation _ _

pub frame-apply_heal :
    (ctx : ResolveContext) (id : Text) (n : ℕ) → SameFrame ctx (apply_heal ctx id n)
unfolding frame apply_heal damage_entry
frame-apply_heal ctx id n = ground arith

pub frame-apply_backlash :
    (ctx : ResolveContext) (id : Text) (n : ℕ) → SameFrame ctx (apply_backlash ctx id n)
unfolding frame apply_backlash damage_entry
frame-apply_backlash ctx id n = ground arith

pub frame-deal_damage :
    (ctx : ResolveContext) (id : Text) (n : ℕ) (b : Bool) → SameFrame ctx (deal_damage ctx id n b).0
unfolding frame deal_damage damage_entry update_player
frame-deal_damage ctx id n b = ground arith

-- The frame through a case on an option, and through a conditional.
module _ (ctx : ResolveContext) where
  pub opt_step :
      {A : Type 0} (o : Option A) (r : SimResult ResolveContext) (f : A → SimResult ResolveContext)
      → KeepsFrame ctx r
      → ((a : A) → KeepsFrame ctx (f a))
      → KeepsFrame ctx (elim o [ none ↦ r | some a ↦ f a ])
  opt_step none r f h k = h
  opt_step (some a) r f h k = k a

  pub if_step :
      (b : Bool) (r q : SimResult ResolveContext)
      → KeepsFrame ctx r
      → KeepsFrame ctx q
      → KeepsFrame ctx (if b then r else q)
  if_step true r q h k = h
  if_step false r q h k = k

  pub opt_same :
      {A : Type 0} (o : Option A) (r : ResolveContext) (f : A → ResolveContext)
      → SameFrame ctx r
      → ((a : A) → SameFrame ctx (f a))
      → SameFrame ctx (elim o [ none ↦ r | some a ↦ f a ])
  opt_same none r f h k = h
  opt_same (some a) r f h k = k a

  pub if_same :
      (b : Bool) (r q : ResolveContext)
      → SameFrame ctx r
      → SameFrame ctx q
      → SameFrame ctx (if b then r else q)
  if_same true r q h k = h
  if_same false r q h k = k

  -- A step that keeps the frame, after one that does.
  pub after_step :
      (next : ResolveContext) (r : SimResult ResolveContext)
      → SameFrame ctx next
      → KeepsFrame next r
      → KeepsFrame ctx r
  after_step next (ok last) h k = k ∙ h
  after_step next (err e) h k = tt

  pub then_step :
      (r : SimResult ResolveContext) (f : ResolveContext → SimResult ResolveContext)
      → KeepsFrame ctx r
      → ((next : ResolveContext) → KeepsFrame next (f next))
      → KeepsFrame ctx (r >>= f)
  then_step (ok next) f h k = after_step next (f next) h (k next)
  then_step (err e) f h k = tt

  pub some_step :
      {A : Type 0} (o : Option A) (e : SimError) (f : A → SimResult ResolveContext)
      → ((a : A) → KeepsFrame ctx (f a))
      → KeepsFrame ctx (ok_or o e >>= f)
  some_step none e f k = tt
  some_step (some a) e f k = k a

  pub ok_or_step :
      {A : Type 0} (r : SimResult A) (f : A → SimResult ResolveContext)
      → ((a : A) → KeepsFrame ctx (f a))
      → KeepsFrame ctx (r >>= f)
  ok_or_step (ok a) f k = k a
  ok_or_step (err e) f k = tt
