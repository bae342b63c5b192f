-- ===== src/Puzzles/P2Conditions.antt =====
-- puzzles/p2_conditions.py: a puzzle that returns fixed conditions.
use ledger_sim.Prelude.{[], ◌∷◌}
use ledger_sim.Prelude.Int.{pos}
use ledger_sim.Errors.{Res, ok, ◌>>=◌}
use ledger_sim.Externals.{Externals, SExp, atom}
use ledger_sim.Hashable.Program.{run}

module _ (x : Externals) where
  unfoldable pub puzzle_for_conditions : SExp → Res SExp
  puzzle_for_conditions conditions = run x x.p2_conditions_mod (x.to_sexp (conditions ∷ []))

  -- `Program.to([puzzle_for_conditions(conditions), 0])`
  unfoldable pub solution_for_conditions : SExp → Res SExp
  unfolding puzzle_for_conditions
  solution_for_conditions conditions = do
    puzzle ← puzzle_for_conditions conditions
    ok (x.to_sexp (puzzle ∷ atom (x.int_to_bytes (pos 0)) ∷ []))
