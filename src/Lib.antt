-- ===== src/Lib.antt =====
-- Dungeon Barrage: the deterministic simulation core, crates/db-sim-core.
--
-- A match is one `SimulationState` that the operations of the crate change in turn: a command is
-- resolved, the scheduler then leads the state through the phases of a turn, statuses tick, and the
-- victory check either ends the match or passes the turn on. Everything is integer arithmetic and
-- seeded randomness, so that each client computes the same match.
--
--   Base - the native numbers, integers with the i32 and i64 bounds, lists, options, texts. A text
--   is the list of its UTF-8 bytes, which Rust compares in that order.
--   Fixed - crates/db-sim-core/src/fixed.rs, positions of 1024 units to a cell, the scaled divide and
--   squared distances. Checked and saturating operations act on the true result.
--   Rng - crates/db-sim-core/src/rng.rs, the PCG generator. A draw returns the value and the advanced
--   generator; the rejection loop is on fuel, and 2 ^ 64 rounds are enough.
--   Error, Types - crates/db-sim-core/src/error.rs and types.rs, with the blocks of blocks.rs.
--   Roster - crates/db-sim-core/src/character_roster.rs, the launch characters and their kits.
--   Items - crates/db-sim-core/src/character.rs, the item catalog and the ability in a slot.
--   Terrain - crates/db-sim-core/src/terrain.rs, the cells of the mask and carving. The two carving
--   loops share `carve_rows`, which takes the test of the shape.
--   Blocks - crates/db-sim-core/src/blocks.rs, where a block of the game has a 16-bit width and health,
--   and health left up to a positive maximum.
--   BlockOps - crates/db-sim-core/src/block_ops.rs. The loop of a fall is on the number of cells to the
--   lowest place, and the fall of all blocks on the 64 passes of the source.
--   Movement - `walk`, `jump` and `settle` of crates/db-sim-core/src/movement.rs. The loops are on the fuel of
--   the source, 2,048 steps of a walk or a jump and 4,096 of a fall.
--   Status - `apply_status` and `tick_statuses` of crates/db-sim-core/src/resolve/status.rs.
--   Victory - crates/db-sim-core/src/victory.rs.
--   Scheduler - crates/db-sim-core/src/scheduler.rs. The bound on the calls of `advance_phase`
--   counts the phases left in a turn, ten for each turn below the limit of 200.
--   Canonical, Hash - crates/db-sim-core/src/canonical.rs and hash.rs: the FNV-1a hasher, the writers
--   of the state, and beside them the layout of the bytes, Hash/Emit, written out on its own.
--   Resolve - the files of crates/db-sim-core/src/resolve/: the context that an effect reads and
--   changes, with the map of damage events as pairs of ascending names. Resolve/Dispatch is `resolve_effect`
--   of mod.rs, Resolve/Detonation the knives of objects.rs that set each other off, Resolve/Relocation
--   and Resolve/AttackMods the files of those names. A sweep is on the fuel of the source, 512 steps; a
--   chain of detonations is on the number of knives, each of which goes off at most once; the search for a
--   legal cell is on the rings of the source.
--   Ballistics - crates/db-sim-core/src/ballistics.rs, the flight of a projectile. The loop is on the
--   number of ticks of the attack, as in the source.
--   Command - crates/db-sim-core/src/command.rs: the checks of a command, the attack, and its
--   application to a copy of the match that is kept only on success.
--   Examples - each result at concrete inputs.
--
-- An operation on `&mut SimulationState` takes the state and returns the new one; the vectors that it
-- appends to are passed and returned with it. A binary search on sorted names stands by the place it
-- finds in them. Not modelled: the mechanics of projectiles beyond their flight, the checks of the item
-- catalog, the teleport of a chained strike, the maps, the setup of a match, its session, host and bot.
-- Nor are the foreign interface and the clients, which only carry and draw what the simulation says.
pub mod Base
pub mod Fixed
pub mod Rng
pub mod Error
pub mod Types
pub mod Roster
pub mod Items
pub mod Terrain
pub mod Blocks
pub mod BlockOps
pub mod Movement
pub mod Status
pub mod Victory
pub mod Scheduler
pub mod Canonical
pub mod Hash
pub mod Ballistics
pub mod Resolve
pub mod Command
pub mod Examples
