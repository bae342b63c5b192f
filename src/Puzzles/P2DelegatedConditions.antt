-- ===== src/Puzzles/P2DelegatedConditions.antt =====
-- puzzles/p2_delegated_conditions.py: a puzzle whose solution is a signed list of conditions.
use ledger_sim.Prelude.{[], ◌∷◌, Bytes}
use ledger_sim.Errors.{Res}
use ledger_sim.Hashable.Program.{curried}
use ledger_sim.Externals.{Externals, SExp, atom}

module _ (x : Externals) where
  unfoldable pub puzzle_for_pk : Bytes → Res SExp
  puzzle_for_pk public_key = curried x x.p2_delegated_conditions_mod (atom public_key ∷ [])

  unfoldable pub solution_for_conditions : SExp → SExp → SExp
  solution_for_conditions puzzle_reveal conditions =
      x.to_sexp (puzzle_reveal ∷ x.to_sexp (conditions ∷ []) ∷ [])
