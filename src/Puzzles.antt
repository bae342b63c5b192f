-- ===== src/Puzzles.antt =====
-- chiasim/puzzles: the programs that lock coins, made from compiled modules that are parameters. The
-- conditions are given as the s-expression that `Program.to` makes of them.
pub mod P2Conditions
pub mod P2DelegatedConditions
pub mod P2DelegatedPuzzle
