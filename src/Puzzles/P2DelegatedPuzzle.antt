-- ===== src/Puzzles/P2DelegatedPuzzle.antt =====
-- puzzles/p2_delegated_puzzle.py: a puzzle whose solution is a signed puzzle with its own solution.
use ledger_sim.Prelude.{[], ◌∷◌, Bytes}
use ledger_sim.Errors.{Res, ok, ◌>>=◌}
use ledger_sim.Hashable.Program.{curried}
use ledger_sim.Externals.{Externals, SExp, atom}
use ledger_sim.Puzzles.P2Conditions.{puzzle_for_conditions}

module _ (x : Externals) where
  unfoldable pub puzzle_for_pk : Bytes → Res SExp
  puzzle_for_pk public_key = curried x x.p2_delegated_puzzle_mod (atom public_key ∷ [])

  unfoldable pub solution_for_delegated_puzzle : SExp → SExp → SExp
  solution_for_delegated_puzzle puzzle_reveal delegated_solution =
      x.to_sexp (puzzle_reveal ∷ delegated_solution ∷ [])

  unfoldable pub solution_for_conditions : SExp → SExp → Res SExp
  solution_for_conditions puzzle_reveal conditions = do
    delegated_puzzle ← puzzle_for_conditions x conditions
    ok (x.to_sexp (puzzle_reveal ∷ x.to_sexp (delegated_puzzle ∷ x.to_sexp [] ∷ []) ∷ []))
