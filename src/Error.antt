-- ===== src/Error.antt =====
-- crates/db-sim-core/src/error.rs: the failures of the simulation, and chains of fallible steps.
use dungeon_barrage.Base.{Option, none, some, Text}

pub data CharacterRejection : Type 0 where
  slot_mismatch wrong_passive_count duplicate_id unknown_character stat_out_of_range :
      CharacterRejection

pub data SimError : Type 0 where
  out_of_range : Text → SimError
  overflow : Text → SimError
  unknown_definition terrain_shape_mismatch : SimError
  invalid_character : CharacterRejection → SimError
  invalid_roster : SimError

pub data SimResult {ℓ} (A : Type ℓ) : Type ℓ where
  ok : A → SimResult A
  err : SimError → SimResult A

-- The `?` operator.
infixl 5 ◌>>=◌
abbrev pub ◌>>=◌ {ℓ κ} : {A : Type ℓ} {B : Type κ} → SimResult A → (A → SimResult B) → SimResult B
err failure >>= step = err failure
ok value >>= step = step value

-- `let Some(x) = o else { return Err(e) }`.
abbrev pub ok_or {ℓ} : {A : Type ℓ} → Option A → SimError → SimResult A
ok_or none e = err e
ok_or (some a) e = ok a
