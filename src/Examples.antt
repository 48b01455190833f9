-- ===== src/Examples.antt =====
-- Concrete runs: each theorem that the header lists, at an input of the game.
pub mod Duel
pub mod Numbers
pub mod Field
pub mod Hashes
pub mod Resolves
pub mod Commands
