-- ===== src/Types.antt =====
-- crates/db-sim-core/src/types.rs: the data of the simulation.
pub mod Ability
pub mod Terrain
pub mod Player
pub mod State
pub mod Damage
pub mod Outcome
pub mod Lookup
